-- ===== src/Frontend/Merge.antt =====
-- `deepMerge` and `rangeReq` of code.js over the values of JSON. An array is an object whose keys
-- are its indices, which is how `deepMerge` treats it; a number stands for its text, "0" for zero.
-- A missing key is undefined. Keys are kept in the order of insertion, and none is the name of a
-- property that a prototype has. `none` is a TypeError.
pub mod Laws
mod Tests
use tillerinobot.Prelude.{
  Bool, true, false, not, Option, none, some, List, [], ◌∷◌, String, if◌then◌else◌, str_eq,
}

mutual
  pub data Value : Type 0 where
    null : Value
    bool : Bool → Value
    num str : String → Value
    obj : Fields → Value

  pub data Fields : Type 0 where
    end : Fields
    field : String → Value → Fields → Fields

-- `target[key]` of an object; `none` is undefined.
pub lookup : String → Fields → Option Value
lookup k end = none
lookup k (field j v fs) = if str_eq j k then some v else lookup k fs

-- `target[key] = value` of an object.
pub insert : String → Value → Fields → Fields
insert k v end = field k v end
insert k v (field j w fs) = if str_eq j k then field j v fs else field j w (insert k v fs)

-- `target[key] || {}`.
pub or_empty : Option Value → Value
or_empty none = obj end
or_empty (some null) = obj end
or_empty (some (bool b)) = if b then bool true else obj end
or_empty (some (num n)) = if str_eq n "0" then obj end else num n
or_empty (some (str s)) = if str_eq s "" then obj end else str s
or_empty (some (obj fs)) = obj fs

-- `target[key] = value` of any target: primitives ignore it, null refuses it.
assign : String → Value → Value → Option Value
assign k v (obj fs) = some (obj (insert k v fs))
assign k v null = none
assign k v (bool b) = some (bool b)
assign k v (num n) = some (num n)
assign k v (str s) = some (str s)

-- What `target[key] || {}` hands to the recursive call, behind the assignment: undefined, as null,
-- where the target is a primitive, which has ignored it.
child : String → Value → Option Value
child k (obj fs) = some (or_empty (lookup k fs))
child k null = none
child k (bool b) = some null
child k (num n) = some null
child k (str s) = some null

infixl 5 ◌>>=◌
abbrev ◌>>=◌ : Option Value → (Value → Option Value) → Option Value
none >>= f = none
some v >>= f = f v

-- The loop over the source's keys; the target is returned as the loop leaves it.
pub deep_merge : Value → Fields → Option Value
deep_merge target end = some target
deep_merge target (field k (obj source) rest) = do
  inner ← child k target
  merged ← deep_merge inner source
  next ← assign k merged target
  deep_merge next rest
deep_merge target (field k v rest) = do next ← assign k v target; deep_merge next rest

-- The object that a button hands to `rangeReq`; a missing field is `none`.
pub record Change : Type 0 where
  pub copy : Option Fields
  pub mod_ : Option Fields

or_nothing : Option Fields → Fields
or_nothing none = end
or_nothing (some fs) = fs

-- Returns the window's request as it is afterwards, and the text that is sent, as its value.
pub range_req : Value → Change → Option (Value × Value)
range_req base change = elim change.copy [
  | some source ↦ (elim (deep_merge base source) [ none ↦ none | some sent ↦ some (base, sent) ])
  | none ↦ (elim (deep_merge base (or_nothing change.mod_)) [
    | none ↦ none
    | some sent ↦ some (sent, sent)
  ])
]
