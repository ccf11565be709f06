-- ===== src/Recommend/Predicate/Bounds.antt =====
-- `contradicts` and the numbers that two predicates accept in common.
use tillerinobot.Prelude.{ℕ, ◌≡◌, refl, Bool, true, false, ◌&&◌, List, arith, ◌⊎◌, inl, inr}
use tillerinobot.Prelude.Int.{ℤ}
use tillerinobot.Recommend.Predicate.{
  Double, nan, negative_infinity, positive_infinity, finite, less, at_most, Property,
  NumericPropertyPredicate, test, contradicts, bounded, g, l,
}

abbrev pub is_nan : Double → Bool
is_nan nan = true
is_nan negative_infinity = false
is_nan positive_infinity = false
is_nan (finite a) = false

-- a ≤ b and b < c.
less_of_not :
    (a b c : Double) → is_nan a ≡ false → less b a ≡ false → less b c ≡ true → less a c ≡ true
unfolding less
less_of_not (finite a) (finite b) (finite c) n h k = ground arith
less_of_not a b c n h k = ground arith

-- a ≤ b and b ≤ c.
at_most_of_not :
    (a b c : Double) → is_nan a ≡ false → less b a ≡ false → at_most b c ≡ true → at_most a c ≡ true
unfolding at_most
at_most_of_not (finite a) (finite b) (finite c) n h k = ground arith
at_most_of_not a b c n h k = ground arith

-- a < b and b ≤ c.
less-at_most : (a b c : Double) → less a b ≡ true → at_most b c ≡ true → less a c ≡ true
unfolding at_most
less-at_most (finite a) (finite b) (finite c) h k = ground arith
less-at_most a b c h k = ground arith

-- No number lies beyond both bounds of two predicates of which one ends where the other begins.
apart :
    (p q : NumericPropertyPredicate) (v : Double)
    → is_nan v ≡ false
    → (less p.max q.min ≡ true)
      ⊎ ((at_most p.max q.min ≡ true) × (p.include_max && q.include_min ≡ false))
    → (test p v && test q v) ≡ false
unfolding test
apart p q v n (inl k) = ground (arith, less_of_not v p.max q.min n)
apart p q v n (inr (k, i)) =
    ground (arith, at_most_of_not v p.max q.min n, less-at_most v p.max q.min)

-- `contradicts` never raises a false alarm: two predicates that it finds to contradict each other
-- accept no number in common.
pub contradicts_sound :
    (p q : NumericPropertyPredicate) (v : Double)
    → contradicts p q ≡ true
    → is_nan v ≡ false
    → (test p v && test q v) ≡ false
unfolding contradicts
contradicts_sound p q v h n = ground (arith, apart p q v n, apart q p v n)

-- It misses "less than" with "greater than" the same number: there is none between them, and yet
-- the two do not count as a contradiction, in either order.
pub contradicts_misses :
    (x y : List ℕ) (property : Property) (d : ℤ)
    → (contradicts (bounded x property l (finite d)) (bounded y property g (finite d)) ≡ false)
      × (contradicts (bounded y property g (finite d)) (bounded x property l (finite d)) ≡ false)
      × ((v : Double)
          → is_nan v ≡ false
          → (test (bounded x property l (finite d)) v && test (bounded y property g (finite d)) v)
            ≡ false)
unfolding contradicts bounded at_most
contradicts_misses x y property d =
    (ground arith, ground arith, λ v n. apart _ _ v n (inr (ground arith, refl)))
