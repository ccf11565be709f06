-- ===== src/Site/Comments/Keyed.antt =====
-- The entries of a set that start with a prefix.
use tillerinobot.Prelude.{
  ℕ, Option, ◌≡◌, refl, sym, ap, ◌∙◌, List, [], ◌∷◌, All, Bool, true, false, if◌then◌else◌, ◌||◌,
  Bool-cases, inl, inr, arith,
}
use tillerinobot.Site.Comments.{
  Text, Reading, null, before, starts_with, tail_set, add, remove, read_first, parse_comment,
  behind_two,
}
use tillerinobot.Site.Comments.Ordering.{
  not_itself, before_trans, before_or_same, prefix_first, prefix_between,
}

-- The order of a TreeSet, each entry once.
abbrev pub Sorted : List Text → Type 0
Sorted [] = Unit {0}
Sorted (x ∷ xs) = All (λ y. before x y ≡ true) xs × Sorted xs

unfoldable pub keyed : Text → List Text → List Text
keyed p [] = []
keyed p (x ∷ xs) = let rest = keyed p xs in if starts_with p x then x ∷ rest else rest

true_or_false : {b : Bool} → b ≡ true → b ≡ false → ⊥
true_or_false p q = ground (arith, p, q)

-- Behind an entry that is behind the prefix without starting with it there is none that does.
none_behind :
    (p x : Text) (xs : List Text)
    → before x p ≡ false
    → starts_with p x ≡ false
    → All (λ y. before x y ≡ true) xs
    → keyed p xs ≡ []
unfolding keyed
none_behind p x [] a b h = refl
none_behind p x (y ∷ ys) a b h = elim (Bool-cases (starts_with p y)) [
  | inl t ↦
      absurd (true_or_false (before_trans x y x h.0 (prefix_between p x y a b t)) (not_itself x))
  | inr t ↦ rw t (none_behind p x ys a b h.1)
]

pub All-add : (P : Text → Type 0) (e : Text) (xs : List Text) → P e → All P xs → All P (add e xs)
unfolding add
All-add P e [] p h = (p, tt)
All-add P e (x ∷ xs) p h = elim (Bool-cases (before e x)) [
  | inl t ↦ rw t (p, h)
  | inr t ↦ elim (Bool-cases (before x e)) [
    | inl u ↦ rw (t, u) (h.0, All-add P e xs p h.1)
    | inr u ↦ rw (t, u) h
  ]
]

pub All-remove : (P : Text → Type 0) (e : Text) (xs : List Text) → All P xs → All P (remove e xs)
unfolding remove
All-remove P e [] h = tt
All-remove P e (x ∷ xs) h = elim (Bool-cases (before e x || before x e)) [
  | inl t ↦ rw t (h.0, All-remove P e xs h.1)
  | inr t ↦ rw t h.1
]

All-before :
    (e x : Text) (xs : List Text)
    → before e x ≡ true
    → All (λ y. before x y ≡ true) xs
    → All (λ y. before e y ≡ true) xs
All-before e x [] b h = tt
All-before e x (y ∷ ys) b h = (before_trans e x y b h.0, All-before e x ys b h.1)

pub add-Sorted : (e : Text) (xs : List Text) → Sorted xs → Sorted (add e xs)
unfolding add
add-Sorted e [] h = (tt, tt)
add-Sorted e (x ∷ xs) h = elim (Bool-cases (before e x)) [
  | inl t ↦ rw t ((t, All-before e x xs t h.0), h)
  | inr t ↦ elim (Bool-cases (before x e)) [
    | inl u ↦ rw (t, u) (All-add (λ y. before x y ≡ true) e xs u h.0, add-Sorted e xs h.1)
    | inr u ↦ rw (t, u) h
  ]
]

pub remove-Sorted : (e : Text) (xs : List Text) → Sorted xs → Sorted (remove e xs)
unfolding remove
remove-Sorted e [] h = tt
remove-Sorted e (x ∷ xs) h = elim (Bool-cases (before e x || before x e)) [
  | inl t ↦ rw t (All-remove (λ y. before x y ≡ true) e xs h.0, remove-Sorted e xs h.1)
  | inr t ↦ rw t h.1
]

pub keyed-add_other :
    (p e : Text) (xs : List Text) → starts_with p e ≡ false → keyed p (add e xs) ≡ keyed p xs
unfolding add keyed
keyed-add_other p e [] h = rw h refl
keyed-add_other p e (x ∷ xs) h = elim (Bool-cases (before e x)) [
  | inl t ↦ rw (t, h) refl
  | inr t ↦ elim (Bool-cases (before x e)) [
    | inl u ↦ rw (t, u, keyed-add_other p e xs h) refl
    | inr u ↦ rw (t, u) refl
  ]
]

pub keyed-remove_other :
    (p e : Text) (xs : List Text) → starts_with p e ≡ false → keyed p (remove e xs) ≡ keyed p xs
unfolding remove keyed
keyed-remove_other p e [] h = refl
keyed-remove_other p e (x ∷ xs) h = elim (Bool-cases (before e x || before x e)) [
  | inl t ↦ rw (t, keyed-remove_other p e xs h) refl
  | inr t ↦ rw (t, ap (starts_with p) (sym (same t)), h) refl
]
  where
    same : (before e x || before x e) ≡ false → e ≡ x
    same t = before_or_same e x (ground (arith, t)) (ground (arith, t))

keyed_in :
    (p x : Text) (xs : List Text) → starts_with p x ≡ true → keyed p (x ∷ xs) ≡ x ∷ keyed p xs
unfolding keyed
keyed_in p x xs h = rw h refl

keyed_out : (p x : Text) (xs : List Text) → starts_with p x ≡ false → keyed p (x ∷ xs) ≡ keyed p xs
unfolding keyed
keyed_out p x xs h = rw h refl

not_both :
    (p e x : Text)
    → starts_with p e ≡ true
    → starts_with p x ≡ false
    → before e x ≡ false
    → before x e ≡ false
    → ⊥
not_both p e x h s t u = true_or_false h (ap (starts_with p) (before_or_same e x t u) ∙ s)

some_entry : (x : Text) (xs : List Text) → x ∷ xs ≡ [] → ⊥
some_entry x xs h = ground (arith, h)

same_entry : (x e : Text) (xs : List Text) → x ∷ xs ≡ e ∷ [] → (x ≡ e) × (xs ≡ [])
same_entry x e xs h = (ground (arith, h), ground (arith, h))

pub keyed-add :
    (p e : Text) (xs : List Text)
    → starts_with p e ≡ true
    → keyed p xs ≡ []
    → keyed p (add e xs) ≡ e ∷ []
unfolding add
keyed-add p e [] h k = keyed_in p e [] h ∙ ap (λ r. e ∷ r) k
keyed-add p e (x ∷ xs) h k = elim (Bool-cases (starts_with p x)) [
  | inl s ↦ absurd (some_entry x (keyed p xs) (sym (keyed_in p x xs s) ∙ k))
  | inr s ↦ elim (Bool-cases (before e x)) [
    | inl t ↦ rw t (keyed_in p e (x ∷ xs) h ∙ ap (λ r. e ∷ r) k)
    | inr t ↦ elim (Bool-cases (before x e)) [
      | inl u ↦
          rw (t, u) (keyed_out p x (add e xs) s ∙ keyed-add p e xs h (sym (keyed_out p x xs s) ∙ k))
      | inr u ↦ absurd (not_both p e x h s t u)
    ]
  ]
]

keyed-remove_first :
    (p e x : Text) (xs : List Text) → (x ≡ e) × (keyed p xs ≡ []) → keyed p (remove e (x ∷ xs)) ≡ []
unfolding remove
keyed-remove_first p e x xs k = rw (k.0, not_itself e) k.1

pub keyed-remove :
    (p e : Text) (xs : List Text)
    → starts_with p e ≡ true
    → keyed p xs ≡ e ∷ []
    → keyed p (remove e xs) ≡ []
unfolding remove keyed
keyed-remove p e [] h k = refl
keyed-remove p e (x ∷ xs) h k = elim (Bool-cases (starts_with p x)) [
  | inl s ↦ keyed-remove_first p e x xs (same_entry x e (keyed p xs) (sym (keyed_in p x xs s) ∙ k))
  | inr s ↦ elim (Bool-cases (before e x || before x e)) [
    | inl t ↦
        rw t (keyed_out p x (remove e xs) s ∙ keyed-remove p e xs h (sym (keyed_out p x xs s) ∙ k))
    | inr t ↦ absurd (not_both p e x h s (ground (arith, t)) (ground (arith, t)))
  ]
]

module _ (decimal : ℕ → Text) (parse_long : Text → Option ℕ) where
  -- What is read is the first entry that starts with the prefix.
  abbrev pub read_keyed : List Text → Reading
  read_keyed [] = null
  read_keyed (e ∷ es) = parse_comment decimal parse_long (behind_two e)

  pub read_first-tail_set :
      (p : Text) (xs : List Text)
      → Sorted xs
      → read_first decimal parse_long p (tail_set p xs) ≡ read_keyed (keyed p xs)
  unfolding read_first tail_set keyed
  read_first-tail_set p [] h = refl
  read_first-tail_set p (x ∷ xs) h = elim (Bool-cases (before x p)) [
    | inl t ↦ elim (Bool-cases (starts_with p x)) [
      | inl s ↦ absurd (true_or_false t (prefix_first p x s))
      | inr s ↦ rw (t, s) (read_first-tail_set p xs h.1)
    ]
    | inr t ↦ elim (Bool-cases (starts_with p x)) [
      | inl s ↦ rw (t, s) refl
      | inr s ↦ rw (t, s, none_behind p x xs t s h.0) refl
    ]
  ]
