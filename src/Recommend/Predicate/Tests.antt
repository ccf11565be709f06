-- ===== src/Recommend/Predicate/Tests.antt =====
-- Predicates that users type.
use tillerinobot.Prelude.{ℕ, ◌≡◌, refl, true, false, ◌&&◌, Option, none, some, List, [], ◌∷◌, ◌-◌}
use tillerinobot.Prelude.Int.{pos}
use tillerinobot.Recommend.Predicate.{
  Double, finite, approach_rate, NumericPropertyPredicate, test, contradicts, bounded, Relation, eq,
  geq, l, build, built, strip_name, parse_relation, at_most,
}
use tillerinobot.Recommend.Predicate.Bounds.{contradicts_sound}

-- One digit.
abbrev parse_double : List ℕ → Option Double
parse_double [] = none
parse_double (c ∷ []) = some (finite (pos (c - b'0')))
parse_double (c ∷ d ∷ s) = none

abbrev bound : Relation → ℕ → NumericPropertyPredicate
bound r n = bounded [] approach_rate r (finite (pos n))

-- "ar<==9" is read as "AR=9".
override_test :
    build parse_double approach_rate (b'a' ∷ b'r' ∷ b'<' ∷ b'=' ∷ b'=' ∷ b'9' ∷ [])
    ≡ built
        (bounded (b'a' ∷ b'r' ∷ b'<' ∷ b'=' ∷ b'=' ∷ b'9' ∷ []) approach_rate eq (finite (pos 9)))
unfolding build strip_name parse_relation
override_test = refl

above_and_below : contradicts (bound geq 9) (bound l 9) ≡ true
unfolding contradicts bounded at_most
above_and_below = refl

contradicts_sound_example :
    (test (bound geq 9) (finite (pos 9)) && test (bound l 9) (finite (pos 9))) ≡ false
contradicts_sound_example =
    contradicts_sound (bound geq 9) (bound l 9) (finite (pos 9)) above_and_below refl
