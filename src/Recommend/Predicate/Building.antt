-- ===== src/Recommend/Predicate/Building.antt =====
-- What a predicate that was typed in means.
use tillerinobot.Prelude.{
  ℕ, ◌≡◌, ◌≢◌, refl, Bool, false, Option, some, List, [], ◌∷◌, ◌++◌, arith, ap, ◌∙◌,
}
use tillerinobot.Prelude.Int.{ℤ}
use tillerinobot.Recommend.Predicate.{
  Double, nan, finite, less, equal, at_most, Property, get_name, NumericPropertyPredicate, test,
  bounded, Relation, eq, geq, leq, g, l, strip_name, parse_relation, build_rest, build_behind,
  build, built, approach_rate, beats_per_minute, overall_difficulty, map_length, circle_size,
  star_diff,
}
use tillerinobot.Recommend.Predicate.Bounds.{is_nan}

abbrev pub symbol : Relation → List ℕ
symbol eq = b'=' ∷ []
symbol geq = b'>' ∷ b'=' ∷ []
symbol leq = b'<' ∷ b'=' ∷ []
symbol g = b'>' ∷ []
symbol l = b'<' ∷ []

abbrev pub holds : Relation → Double → Double → Bool
holds eq v d = equal v d
holds geq v d = at_most d v
holds leq v d = at_most v d
holds g v d = less d v
holds l v d = less v d

-- A number does not begin with a character of a relation.
abbrev pub IsNumber : List ℕ → Type 0
IsNumber [] = ⊥
IsNumber (c ∷ s) = (c ≢ b'<') × (c ≢ b'>') × (c ≢ b'=')

strip_name-get_name :
    (p : Property) (s : List ℕ) → strip_name (get_name p) (get_name p ++ s) ≡ some s
unfolding strip_name
strip_name-get_name approach_rate s = refl
strip_name-get_name beats_per_minute s = refl
strip_name-get_name overall_difficulty s = refl
strip_name-get_name map_length s = refl
strip_name-get_name circle_size s = refl
strip_name-get_name star_diff s = refl

parse_relation-symbol :
    (r : Relation) (s : List ℕ) → IsNumber s → parse_relation (symbol r ++ s) ≡ (some r, s)
unfolding parse_relation
parse_relation-symbol r [] h = absurd h
parse_relation-symbol eq (c ∷ s) h = ground arith
parse_relation-symbol geq (c ∷ s) h = ground arith
parse_relation-symbol leq (c ∷ s) h = ground arith
parse_relation-symbol g (c ∷ []) h = ground arith
parse_relation-symbol g (c ∷ d ∷ s) h = ground arith
parse_relation-symbol l (c ∷ []) h = ground arith
parse_relation-symbol l (c ∷ d ∷ s) h = ground arith

test-bounded :
    (x : List ℕ) (p : Property) (r : Relation) (v : Double) (d : ℤ)
    → is_nan v ≡ false
    → test (bounded x p r (finite d)) v ≡ holds r v (finite d)
unfolding test bounded at_most
test-bounded x p r nan d h = cc
test-bounded x p eq v d h = ground arith
test-bounded x p geq v d h = ground arith
test-bounded x p leq v d h = ground arith
test-bounded x p g v d h = ground arith
test-bounded x p l v d h = ground arith

-- The name of a property, a relation and a number make a predicate that accepts exactly the
-- numbers in that relation to the number given.
pub build_lem :
    (parse_double : List ℕ → Option Double) (p : Property) (r : Relation) (s : List ℕ) (d : ℤ)
    → IsNumber s
    → parse_double s ≡ some (finite d)
    → (q : NumericPropertyPredicate) × (build parse_double p (get_name p ++ (symbol r ++ s))
        ≡ built q)
      × ((v : Double) → is_nan v ≡ false → test q v ≡ holds r v (finite d))
unfolding build build_rest
build_lem parse_double p r s d h e =
    let argument = get_name p ++ (symbol r ++ s) in
    (
      bounded argument p r (finite d),
      ap (build_behind parse_double p argument) (strip_name-get_name p (symbol r ++ s))
          ∙ ap (build_rest parse_double p argument) (parse_relation-symbol r s h)
          ∙ rw (e, build_rest),
      λ v n. test-bounded _ p r v d n,
    )
