-- ===== src/Site/Comments/Ordering.antt =====
-- The order of texts, and the prefixes in it.
use tillerinobot.Prelude.{
  ◌≡◌, refl, ap, ℕ, ◌<◌, ◌==◌, [], ◌∷◌, ltb, arith, true, false, inl, inr, ◌⊎◌, ◌∙◌,
}
use tillerinobot.Site.Comments.{Text, before, starts_with}

-- How the code units at the front are compared.
pub compare_cases : (c d : ℕ) → ((c < d) ⊎ (d < c)) ⊎ (c ≡ d)
compare_cases c d = omega arith

ltb_less : (c d : ℕ) → c < d → ltb c d ≡ true
ltb_less c d h = ground arith

ltb_greater : (c d : ℕ) → d < c → ltb c d ≡ false
ltb_greater c d h = ground arith

ltb_self : (c : ℕ) → ltb c c ≡ false
ltb_self c = ground arith

pub eq_self : (c : ℕ) → (c == c) ≡ true
eq_self c = ground arith

pub eq_differs : (c d : ℕ) → (c < d) ⊎ (d < c) → (c == d) ≡ false
eq_differs c d h = ground arith

pub not_itself : (a : Text) → before a a ≡ false
unfolding before
not_itself [] = refl
not_itself (c ∷ a) = rw (ltb_self c, not_itself a) refl

before_cases :
    (x y : ℕ) (a b : Text)
    → before (x ∷ a) (y ∷ b) ≡ true
    → (x < y) ⊎ ((x ≡ y) × (before a b ≡ true))
unfolding before
before_cases x y a b h = ground (arith, h)

before_not_cases :
    (x y : ℕ) (a b : Text)
    → before (x ∷ a) (y ∷ b) ≡ false
    → (y < x) ⊎ ((x ≡ y) × (before a b ≡ false))
unfolding before
before_not_cases x y a b h = ground (arith, h)

before_less : (x y : ℕ) (a b : Text) → x < y → before (x ∷ a) (y ∷ b) ≡ true
unfolding before
before_less x y a b h = rw (ltb_less x y h) refl

before_greater : (x y : ℕ) (a b : Text) → y < x → before (x ∷ a) (y ∷ b) ≡ false
unfolding before
before_greater x y a b h = rw (ltb_greater x y h, ltb_less y x h) refl

before_same : (x : ℕ) (a b : Text) → before (x ∷ a) (x ∷ b) ≡ before a b
unfolding before
before_same x a b = rw (ltb_self x) refl

pub starts_with_cases :
    (c d : ℕ) (p s : Text) → starts_with (c ∷ p) (d ∷ s) ≡ true → (c ≡ d) × (starts_with p s ≡ true)
unfolding starts_with
starts_with_cases c d p s h = ground (arith, h)

pub before_trans : (a b c : Text) → before a b ≡ true → before b c ≡ true → before a c ≡ true
unfolding before
before_trans a [] c p q = absurd (ground arith)
before_trans a (y ∷ b) [] p q = absurd (ground arith)
before_trans [] (y ∷ b) (z ∷ c) p q = refl
before_trans (x ∷ a) (y ∷ b) (z ∷ c) p q = elim (before_cases x y a b p) [
  | inl l ↦ elim (before_cases y z b c q) [
    | inl m ↦ before_less x z a c (omega arith)
    | inr m ↦ before_less x z a c (omega (arith, m.0))
  ]
  | inr l ↦ elim (before_cases y z b c q) [
    | inl m ↦ before_less x z a c (omega (arith, l.0))
    | inr m ↦ rw (l.0, m.0) (before_same z a c ∙ before_trans a b c l.1 m.1)
  ]
]

pub before_or_same : (a b : Text) → before a b ≡ false → before b a ≡ false → a ≡ b
unfolding before
before_or_same [] [] p q = refl
before_or_same [] (y ∷ b) p q = absurd (ground arith)
before_or_same (x ∷ a) [] p q = absurd (ground arith)
before_or_same (x ∷ a) (y ∷ b) p q = elim (before_not_cases x y a b p) [
  | inl l ↦ elim (before_not_cases y x b a q) [
    | inl m ↦ absurd (omega arith)
    | inr m ↦ absurd (omega (arith, m.0))
  ]
  | inr l ↦ elim (before_not_cases y x b a q) [
    | inl m ↦ absurd (omega (arith, l.0))
    | inr m ↦ rw l.0 (ap (λ t. y ∷ t) (before_or_same a b l.1 m.1))
  ]
]

-- A text that starts with a prefix is not before it.
pub prefix_first : (p s : Text) → starts_with p s ≡ true → before s p ≡ false
unfolding before starts_with
prefix_first [] s h = refl
prefix_first (c ∷ p) [] h = absurd (ground arith)
prefix_first (c ∷ p) (d ∷ s) h =
    let e = starts_with_cases c d p s h in rw e.0 (before_same d s p ∙ prefix_first p s e.1)

-- A text behind a prefix that does not start with it is behind all that start with it.
pub prefix_between :
    (p x y : Text)
    → before x p ≡ false
    → starts_with p x ≡ false
    → starts_with p y ≡ true
    → before y x ≡ true
unfolding before starts_with
prefix_between [] x y a b h = absurd (ground arith)
prefix_between (c ∷ p) [] y a b h = absurd (ground arith)
prefix_between (c ∷ p) (d ∷ x) [] a b h = absurd (ground arith)
prefix_between (c ∷ p) (d ∷ x) (e ∷ y) a b h =
    let i = starts_with_cases c e p y h in
    elim (before_not_cases d c x p a) [
      | inl l ↦ before_less e d y x (omega (arith, i.0))
      | inr l ↦ rw (← i.0, l.0) (before_same c y x ∙ prefix_between p x y l.1 (behind l.0) i.1)
    ]
  where
    behind : d ≡ c → starts_with p x ≡ false
    behind k = ground (arith, b, k)
