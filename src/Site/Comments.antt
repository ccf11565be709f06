-- ===== src/Site/Comments.antt =====
-- The comments on beatmaps in
-- ppaddict-site/src/main/java/org/tillerino/ppaddict/server/PersistentUserData.java. A text is the
-- list of its characters, a TreeSet a list in its order. The decimal digits of a number and their
-- parser are arguments: `Long.parseLong` throws where that has no value.
pub mod Ordering
pub mod Keyed
pub mod Reads
pub mod Puts
mod Tests
use tillerinobot.Prelude.{
  ℕ, List, [], ◌∷◌, ◌++◌, ◌==◌, ◌&&◌, ◌||◌, if◌then◌else◌, ltb, Bool, true, false, Option, some,
  none,
}

abbrev pub Text : Type 0
Text = List ℕ

-- `a.compareTo(b) < 0`.
pub before : Text → Text → Bool
before a [] = false
before [] (d ∷ b) = true
before (c ∷ a) (d ∷ b) = if ltb c d then true else if ltb d c then false else before a b

-- `s.startsWith(p)`.
pub starts_with : Text → Text → Bool
starts_with [] s = true
starts_with (c ∷ p) [] = false
starts_with (c ∷ p) (d ∷ s) = c == d && starts_with p s

-- The operations of a TreeSet.
pub tail_set : Text → List Text → List Text
tail_set p [] = []
tail_set p (x ∷ xs) = if before x p then tail_set p xs else x ∷ xs

pub add : Text → List Text → List Text
add e [] = e ∷ []
add e (x ∷ xs) =
    let rest = add e xs in
    if before e x then e ∷ x ∷ xs else if before x e then x ∷ rest else x ∷ xs

pub remove : Text → List Text → List Text
remove e [] = []
remove e (x ∷ xs) = let rest = remove e xs in if before e x || before x e then x ∷ rest else xs

-- What is before the first dash, and what is behind it.
pub split_dash : Text → Option (Text × Text)
split_dash [] = none
split_dash (c ∷ s) =
    let rest = split_dash s in
    if c == b'-'
    then some ([], s)
    else elim rest [ none ↦ none | some cut ↦ some (c ∷ cut.0, cut.1) ]

-- `s.substring(s.indexOf('-', s.indexOf('-') + 1) + 1)`: all of it if there are not two.
pub behind_two : Text → Text
unfolding split_dash
behind_two s = elim (split_dash s) [
  | none ↦ s
  | some cut ↦ elim (split_dash cut.1) [ none ↦ s | some cut_two ↦ cut_two.1 ]
]

pub record Comment : Type 0 where
  pub text : Text
  pub date : ℕ

-- What is read: nothing, a comment, or an exception.
pub data Reading : Type 0 where
  null : Reading
  found : Comment → Reading
  threw : Reading

module _ (decimal : ℕ → Text) (parse_long : Text → Option ℕ) where
  pub key : ℕ → ℕ → Text
  key id mods = decimal id ++ (b'-' ∷ (decimal mods ++ (b'-' ∷ [])))

  -- `Comment.toString`.
  pub to_string : Comment → Text
  to_string c = decimal c.date ++ (b'-' ∷ c.text)

  -- The constructor of Comment.
  pub parse_comment : Text → Reading
  unfolding split_dash
  parse_comment s = elim (split_dash s) [
    | none ↦ threw
    | some cut ↦ elim (parse_long cut.0) [
      | none ↦ threw
      | some date ↦ found (record { text = cut.1; date = date })
    ]
  ]

  pub read_first : Text → List Text → Reading
  unfolding starts_with parse_comment behind_two
  read_first p [] = null
  read_first p (entry ∷ tail) =
      if starts_with p entry then parse_comment (behind_two entry) else null

  pub get_comment : Option (List Text) → ℕ → ℕ → Reading
  unfolding tail_set read_first key
  get_comment none id mods = null
  get_comment (some comments) id mods = read_first (key id mods) (tail_set (key id mods) comments)

  pub add_comment : Text → ℕ → Text → List Text → List Text
  unfolding add to_string
  add_comment p now [] comments = comments
  add_comment p now (c ∷ text) comments =
      add (p ++ to_string (record { text = c ∷ text; date = now })) comments

  -- With the comments that the user has from then on: whether an exception is thrown.
  pub put_old : Text → ℕ → Text → Reading → List Text → Bool × Option (List Text)
  unfolding add_comment remove to_string
  put_old p now comment threw comments = (true, some comments)
  put_old p now comment null comments = (false, some (add_comment p now comment comments))
  put_old p now comment (found old) comments =
      (false, some (add_comment p now comment (remove (p ++ to_string old) comments)))

  -- Without a set of comments a new one is set, but the comment is added to none.
  pub put_first : Text → Bool × Option (List Text)
  put_first [] = (false, some [])
  put_first (c ∷ text) = (true, some [])

  pub put_beatmap_comment : ℕ → ℕ → ℕ → Text → Option (List Text) → Bool × Option (List Text)
  unfolding get_comment put_old put_first key
  put_beatmap_comment now id mods comment none = put_first comment
  put_beatmap_comment now id mods comment (some comments) =
      put_old (key id mods) now comment (get_comment (some comments) id mods) comments
