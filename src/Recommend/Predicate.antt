-- ===== src/Recommend/Predicate.antt =====
-- NumericPropertyPredicate and NumericPredicateBuilder of
-- tillerinobot/src/main/java/tillerino/tillerinobot/predicates. A double is NaN, infinite, or a
-- whole number of some small unit; comparisons are those of IEEE 754. Texts are lists of code
-- points, and lower case is that of ASCII. `Double.parseDouble` is a parameter, with `none` for a
-- NumberFormatException.
pub mod Bounds
mod Tests
pub mod Building
use tillerinobot.Prelude.{
  ℕ, zero, suc, ◌+◌, Bool, true, false, not, ◌&&◌, ◌||◌, Option, none, some, List, [], ◌∷◌, ◌++◌,
  map, if◌then◌else◌, ltb, leb, ◌==◌,
}
use tillerinobot.Prelude.Int.{ℤ, ltb_ℤ}

pub data Double : Type 0 where
  nan negative_infinity positive_infinity : Double
  finite : ℤ → Double

unfoldable pub less : Double → Double → Bool
less nan b = false
less negative_infinity nan = false
less negative_infinity negative_infinity = false
less negative_infinity positive_infinity = true
less negative_infinity (finite b) = true
less positive_infinity b = false
less (finite a) nan = false
less (finite a) negative_infinity = false
less (finite a) positive_infinity = true
less (finite a) (finite b) = ltb_ℤ a b

unfoldable pub equal : Double → Double → Bool
equal nan b = false
equal negative_infinity negative_infinity = true
equal negative_infinity _ = false
equal positive_infinity positive_infinity = true
equal positive_infinity _ = false
equal (finite a) (finite b) = not (ltb_ℤ a b) && not (ltb_ℤ b a)
equal (finite a) _ = false

-- `a <= b`.
unfoldable pub at_most : Double → Double → Bool
unfolding less equal
at_most a b = less a b || equal a b

-- The implementations of NumericBeatmapProperty.
pub data Property : Type 0 where
  approach_rate beats_per_minute overall_difficulty map_length circle_size star_diff : Property

same_property : Property → Property → Bool
same_property approach_rate approach_rate = true
same_property beats_per_minute beats_per_minute = true
same_property overall_difficulty overall_difficulty = true
same_property map_length map_length = true
same_property circle_size circle_size = true
same_property star_diff star_diff = true
same_property _ _ = false

pub record NumericPropertyPredicate : Type 0 where
  pub original_argument : List ℕ
  pub property : Property
  pub min : Double
  pub include_min : Bool
  pub max : Double
  pub include_max : Bool

-- `test`, on the value that the property has for the beatmap and the mods.
pub test : NumericPropertyPredicate → Double → Bool
test p value =
    if less value p.min
    then false
    else if at_most value p.min && not p.include_min
    then false
    else if less p.max value
    then false
    else less value p.max || p.include_max

abbrev differ : Bool → Bool → Bool
differ true b = not b
differ false b = b

-- `contradicts`, for two numeric predicates.
unfoldable pub contradicts : NumericPropertyPredicate → NumericPropertyPredicate → Bool
unfolding same_property
contradicts p q =
    if not (same_property q.property p.property)
    then false
    else if less p.max q.min || less q.max p.min
    then true
    else if at_most p.max q.min && differ q.include_min p.include_max
    then true
    else at_most q.max p.min && differ p.include_min q.include_max

-- `getName()`.
abbrev pub get_name : Property → List ℕ
get_name approach_rate = b'A' ∷ b'R' ∷ []
get_name beats_per_minute = b'B' ∷ b'P' ∷ b'M' ∷ []
get_name overall_difficulty = b'O' ∷ b'D' ∷ []
get_name map_length = b'L' ∷ b'E' ∷ b'N' ∷ []
get_name circle_size = b'C' ∷ b'S' ∷ []
get_name star_diff = b'S' ∷ b'T' ∷ b'A' ∷ b'R' ∷ []

to_lower_case : ℕ → ℕ
to_lower_case c = if leb b'A' c && leb c b'Z' then c + 32 else c

-- The text behind a prefix, `none` if the text does not begin with it in either case.
strip_name : List ℕ → List ℕ → Option (List ℕ)
unfolding to_lower_case
strip_name [] s = some s
strip_name (n ∷ name) [] = none
strip_name (n ∷ name) (c ∷ s) =
    if to_lower_case c == to_lower_case n then strip_name name s else none

pub data Relation : Type 0 where
  eq geq leq g l : Relation

abbrev Parsed : Type 0
Parsed = Option Relation × List ℕ

-- One of the five tests of `build`: a prefix sets the relation and is cut off.
abbrev one_char : ℕ → Relation → Parsed → Parsed
one_char c r (found, []) = (found, [])
one_char c r (found, d ∷ s) = if d == c then (some r, s) else (found, d ∷ s)

abbrev two_chars : ℕ → ℕ → Relation → Parsed → Parsed
two_chars a b r (found, []) = (found, [])
two_chars a b r (found, c ∷ []) = (found, c ∷ [])
two_chars a b r (found, c ∷ d ∷ s) = if c == a && (d == b) then (some r, s) else (found, c ∷ d ∷ s)

parse_relation : List ℕ → Parsed
parse_relation rest = one_char b'=' eq (
    one_char b'>' g
      (two_chars b'>' b'=' geq (one_char b'<' l (two_chars b'<' b'=' leq (none, rest)))))

-- The bounds for a relation and a number.
pub bounded : List ℕ → Property → Relation → Double → NumericPropertyPredicate
bounded argument property r d = record {
  original_argument = argument;
  property = property;
  min = elim r [ eq ↦ d | geq ↦ d | g ↦ d | leq ↦ negative_infinity | l ↦ negative_infinity ];
  include_min = elim r [ g ↦ false | _ ↦ true ];
  max = elim r [ eq ↦ d | leq ↦ d | l ↦ d | geq ↦ positive_infinity | g ↦ positive_infinity ];
  include_max = elim r [ l ↦ false | _ ↦ true ];
}

-- What `build` does: null, a predicate, or a UserException about the format.
pub data Built : Type 0 where
  not_mine : Built
  built : NumericPropertyPredicate → Built
  invalid_choice : Built

module _ (parse_double : List ℕ → Option Double) where
  build_rest : Property → List ℕ → Parsed → Built
  unfolding bounded
  build_rest property argument (none, rest) = invalid_choice
  build_rest property argument (some r, rest) = elim (parse_double rest) [
    | none ↦ invalid_choice
    | some d ↦ built (bounded argument property r d)
  ]

  build_behind : Property → List ℕ → Option (List ℕ) → Built
  unfolding build_rest
  build_behind property argument none = not_mine
  build_behind property argument (some rest) = build_rest property argument (parse_relation rest)

  unfoldable pub build : Property → List ℕ → Built
  unfolding build_behind build_rest strip_name parse_relation bounded to_lower_case
  build property argument = build_behind property argument (strip_name (get_name property) argument)
