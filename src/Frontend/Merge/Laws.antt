-- ===== src/Frontend/Merge/Laws.antt =====
-- What a merged object holds under each key.
use tillerinobot.Prelude.{
  Bool, true, not, ap, sym, false, ◌≡◌, ◌≢◌, refl, Option, none, some, String, if◌then◌else◌,
  str_eq, eq_iff, arith, ◌∙◌, Bool-cases, inl, inr, subst, Option-cases,
}
use tillerinobot.Frontend.Merge.{
  Value, null, bool, num, str, obj, Fields, end, field, lookup, insert, or_empty, assign, child,
  deep_merge, range_req, or_nothing,
}

pub lookup-insert :
    (k j : String) (v : Value) (fs : Fields)
    → lookup j (insert k v fs) ≡ (if str_eq k j then some v else lookup j fs)
unfolding lookup insert
lookup-insert k j v end = refl
lookup-insert k j v (field i w fs) =
    ground (arith, eq_iff k j, eq_iff i k, eq_iff i j, lookup-insert k j v fs)

-- The source names the key `k` nowhere.
abbrev pub Lacks : String → Fields → Type 0
Lacks k end = Unit {0}
Lacks k (field j v fs) = (j ≢ k) × Lacks k fs

-- Every key stands in the source once.
abbrev pub Distinct : Fields → Type 0
Distinct end = Unit {0}
Distinct (field k v fs) = Lacks k fs × Distinct fs

lookup-Lacks : (k : String) (fs : Fields) → Lacks k fs → lookup k fs ≡ none
unfolding lookup
lookup-Lacks k end h = refl
lookup-Lacks k (field j v fs) h = ground (arith, eq_iff j k, lookup-Lacks k fs h.1)

-- null, false, zero and the empty text.
abbrev pub is_falsy : Value → Bool
is_falsy null = true
is_falsy (bool b) = not b
is_falsy (num n) = str_eq n "0"
is_falsy (str s) = str_eq s ""
is_falsy (obj fs) = false

-- What an object of the source is merged into.
abbrev pub base : Option Value → Value
base none = obj end
base (some v) = if is_falsy v then obj end else v

or_empty-base : (old : Option Value) → or_empty old ≡ base old
unfolding or_empty
or_empty-base none = refl
or_empty-base (some null) = refl
or_empty-base (some (bool true)) = refl
or_empty-base (some (bool false)) = refl
or_empty-base (some (num n)) = refl
or_empty-base (some (str s)) = refl
or_empty-base (some (obj fs)) = refl

-- What a key holds behind a merge, from what the target and the source hold under it.
abbrev pub Merged : Option Value → Option Value → Option Value → Type 0
Merged old none new = new ≡ old
Merged old (some (obj source)) new =
    (m : Value) × (new ≡ some m) × (deep_merge (base old) source ≡ some m)
Merged old (some null) new = new ≡ some null
Merged old (some (bool b)) new = new ≡ some (bool b)
Merged old (some (num n)) new = new ≡ some (num n)
Merged old (some (str s)) new = new ≡ some (str s)

pub record MergesTo (ts source : Fields) (r : Value) : Type 0 where
  pub result : Fields
  pub is_result : r ≡ obj result
  pub holds : (k : String) → Merged (lookup k ts) (lookup k source) (lookup k result)

lookup-insert_self : (k : String) (v : Value) (fs : Fields) → lookup k (insert k v fs) ≡ some v
lookup-insert_self k v fs = ground (arith, lookup-insert k k v fs, eq_iff k k)

lookup-field_self : (k : String) (v : Value) (fs : Fields) → lookup k (field k v fs) ≡ some v
unfolding lookup
lookup-field_self k v fs = ground (arith, eq_iff k k)

lookup-field_ne :
    (k j : String) (v : Value) (fs : Fields)
    → str_eq k j ≡ false
    → lookup j (field k v fs) ≡ lookup j fs
unfolding lookup
lookup-field_ne k j v fs e = rw e

-- One key more in front of a merge that went through.
module _ (k : String) (v m r : Value) (ts rest : Fields) (lacks : Lacks k rest)
    (here : Merged (lookup k ts) (some v) (some m)) (later : MergesTo (insert k m ts) rest r) where
  result_here : lookup k later.result ≡ some m
  result_here = (rw (lookup-Lacks k rest lacks) at (later.holds k)) ∙ lookup-insert_self k m ts

  holds_here : Merged (lookup k ts) (lookup k (field k v rest)) (lookup k later.result)
  holds_here = rw (lookup-field_self k v rest, result_here) here

  holds_elsewhere :
      (j : String)
      → str_eq k j ≡ false
      → Merged (lookup j ts) (lookup j (field k v rest)) (lookup j later.result)
  holds_elsewhere j e =
      let old : lookup j (insert k m ts) ≡ lookup j ts = ground (arith, lookup-insert k j m ts) in
      rw (lookup-field_ne k j v rest e)
        (subst (λ o. Merged o (lookup j rest) (lookup j later.result)) old (later.holds j))

  one_more : MergesTo ts (field k v rest) r
  one_more = record {
    result = later.result;
    is_result = later.is_result;
    holds = λ j. elim (Bool-cases (str_eq k j)) [
      | inl e ↦
          subst (λ i. Merged (lookup i ts) (lookup i (field k v rest)) (lookup i later.result))
            ((eq_iff k j).0 e) holds_here
      | inr e ↦ holds_elsewhere j e
    ];
  }

-- If a merge into an object goes through, and each key stands in the source once, the result is an
-- object. Under each key it holds what the target held, if the source lacks the key; the source's
-- value, if that is no object; and otherwise the merge of the source's object into what the target
-- held, or into an empty object where that was undefined or falsy.
pub deep_merge-MergesTo :
    (ts : Fields) (source : Fields) (r : Value)
    → Distinct source
    → deep_merge (obj ts) source ≡ some r
    → MergesTo ts source r
unfolding deep_merge assign child lookup
deep_merge-MergesTo ts end r h e = record {
  result = ts;
  is_result = ground arith;
  holds = λ k. refl;
}
deep_merge-MergesTo ts (field k null rest) r h e =
    one_more k null null r ts rest h.0 refl (deep_merge-MergesTo (insert k null ts) rest r h.1 e)
deep_merge-MergesTo ts (field k (bool b) rest) r h e =
    one_more k (bool b) (bool b) r ts rest h.0 refl
      (deep_merge-MergesTo (insert k (bool b) ts) rest r h.1 e)
deep_merge-MergesTo ts (field k (num n) rest) r h e =
    one_more k (num n) (num n) r ts rest h.0 refl
      (deep_merge-MergesTo (insert k (num n) ts) rest r h.1 e)
deep_merge-MergesTo ts (field k (str s) rest) r h e =
    one_more k (str s) (str s) r ts rest h.0 refl
      (deep_merge-MergesTo (insert k (str s) ts) rest r h.1 e)
deep_merge-MergesTo ts (field k (obj fs) rest) r h e =
    elim (Option-cases (deep_merge (or_empty (lookup k ts)) fs)) [
      | inl n ↦ absurd (ground arith)
      | inr (m, p) ↦
          one_more k (obj fs) m r ts rest h.0
            (m, refl, ap (λ b. deep_merge b fs) (sym (or_empty-base (lookup k ts))) ∙ p)
            (deep_merge-MergesTo (insert k m ts) rest r h.1 (ground arith))
    ]

-- A button that asks for a copy sends the window's request merged with its change, and leaves the
-- window's request as it was; any other button merges its change into the window's request and
-- sends that.
pub range_req_lem :
    (ts source : Fields) (m : Option Fields) (base' sent : Value)
    → Distinct source
    → (range_req (obj ts) (record { copy = some source; mod_ = m }) ≡ some (base', sent)
        → (base' ≡ obj ts) × MergesTo ts source sent)
      × (range_req (obj ts) (record { copy = none; mod_ = some source }) ≡ some (base', sent)
          → (base' ≡ sent) × MergesTo ts source sent)
unfolding range_req or_nothing
range_req_lem ts source m base' sent h = (
  λ e. (ground arith, deep_merge-MergesTo ts source sent h (ground arith)),
  λ e. (ground arith, deep_merge-MergesTo ts source sent h (ground arith)),
)
