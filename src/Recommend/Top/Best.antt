-- ===== src/Recommend/Top/Best.antt =====
-- That the recommendations kept are the best of those that pass.
use mathlib.Core.List.{Perm}
use mathlib.Core.List.Perm
use tillerinobot.Prelude.{
  ◌&&◌, true, false, some, none, if◌then◌else◌, ℕ, zero, suc, ◌≤◌, ◌≡◌, refl, Bool, Option, List,
  [], ◌∷◌, ◌++◌, All, take, length, ltb, arith, Bool-cases, inl, inr, ◌⊎◌, subst, sym, ap,
}
use tillerinobot.Recommend.Top.{
  BareRecommendation, insert, sort, for_beatmap, passes, passing, get_top_recommendations,
}

-- Falling probabilities.
abbrev pub Descending : List BareRecommendation → Type 0
Descending [] = Unit {0}
Descending (x ∷ xs) = All (λ y. y.probability ≤ x.probability) xs × Descending xs

-- `kept` are the most probable of `found`, at most `n` and fewer only if there are no others, and the
-- most probable come first.
pub record Best (n : ℕ) (kept found : List BareRecommendation) : Type 0 where
  pub rest : List BareRecommendation
  pub whole : Perm (kept ++ rest) found
  pub falling : Descending kept
  pub above : All (λ r. All (λ k. r.probability ≤ k.probability) kept) rest
  pub bound : length kept ≤ n
  pub full : (rest ≡ []) ⊎ (length kept ≡ n)

All-map :
    {A : Type 0} (P Q : A → Type 0) (xs : List A) → ((a : A) → P a → Q a) → All P xs → All Q xs
All-map P Q [] f h = tt
All-map P Q (x ∷ xs) f h = (f x h.0, All-map P Q xs f h.1)

All-insert :
    (P : BareRecommendation → Type 0) (x : BareRecommendation) (xs : List BareRecommendation)
    → P x
    → All P xs
    → All P (insert x xs)
unfolding insert
All-insert P x [] p h = (p, tt)
All-insert P x (y ∷ ys) p h = elim (Bool-cases (ltb x.probability y.probability)) [
  | inl t ↦ rw t (h.0, All-insert P x ys p h.1)
  | inr t ↦ rw t (p, h)
]

insert-Descending :
    (x : BareRecommendation) (xs : List BareRecommendation)
    → Descending xs
    → Descending (insert x xs)
unfolding insert
insert-Descending x [] h = (tt, tt)
insert-Descending x (y ∷ ys) h = elim (Bool-cases (ltb x.probability y.probability)) [
  | inl t ↦ rw t (All-insert _ x ys (ground (arith, t)) h.0, insert-Descending x ys h.1)
  | inr t ↦ rw t ((ground (arith, t), All-map _ _ ys (λ z k. ground (arith, t, k)) h.0), h)
]

insert-perm : (x : BareRecommendation) (xs : List BareRecommendation) → Perm (insert x xs) (x ∷ xs)
unfolding insert
insert-perm x [] = Perm.rfl
insert-perm x (y ∷ ys) = elim (Bool-cases (ltb x.probability y.probability)) [
  | inl t ↦ rw t (Perm.trans (Perm.cons y (insert-perm x ys)) (Perm.swap x y ys))
  | inr t ↦ rw t Perm.rfl
]

sort-Descending : (xs : List BareRecommendation) → Descending (sort xs)
unfolding sort
sort-Descending [] = tt
sort-Descending (x ∷ xs) = insert-Descending x (sort xs) (sort-Descending xs)

sort-perm : (xs : List BareRecommendation) → Perm (sort xs) xs
unfolding sort
sort-perm [] = Perm.rfl
sort-perm (x ∷ xs) = Perm.trans (insert-perm x (sort xs)) (Perm.cons x (sort-perm xs))

drop : ℕ → List BareRecommendation → List BareRecommendation
drop zero xs = xs
drop (suc n) [] = []
drop (suc n) (x ∷ xs) = drop n xs

take-drop : (n : ℕ) (xs : List BareRecommendation) → take n xs ++ drop n xs ≡ xs
unfolding drop
take-drop zero xs = refl
take-drop (suc n) [] = refl
take-drop (suc n) (x ∷ xs) = ap (◌∷◌ x) (take-drop n xs)

All-take :
    (P : BareRecommendation → Type 0) (n : ℕ) (xs : List BareRecommendation)
    → All P xs
    → All P (take n xs)
All-take P zero xs h = tt
All-take P (suc n) [] h = tt
All-take P (suc n) (x ∷ xs) h = (h.0, All-take P n xs h.1)

All-drop :
    (P : BareRecommendation → Type 0) (n : ℕ) (xs : List BareRecommendation)
    → All P xs
    → All P (drop n xs)
unfolding drop
All-drop P zero xs h = h
All-drop P (suc n) [] h = tt
All-drop P (suc n) (x ∷ xs) h = All-drop P n xs h.1

take-Descending : (n : ℕ) (xs : List BareRecommendation) → Descending xs → Descending (take n xs)
take-Descending zero xs h = tt
take-Descending (suc n) [] h = tt
take-Descending (suc n) (x ∷ xs) h = (All-take _ n xs h.0, take-Descending n xs h.1)

All-both :
    {A : Type 0} (P Q : A → Type 0) (xs : List A) → All P xs → All Q xs → All (λ a. P a × Q a) xs
All-both P Q [] h k = tt
All-both P Q (x ∷ xs) h k = ((h.0, k.0), All-both P Q xs h.1 k.1)

All-trivial : {A : Type 0} (xs : List A) → All (λ _. Unit {0}) xs
All-trivial [] = tt
All-trivial (x ∷ xs) = (tt, All-trivial xs)

drop-below-take :
    (n : ℕ) (xs : List BareRecommendation)
    → Descending xs
    → All (λ r. All (λ k. r.probability ≤ k.probability) (take n xs)) (drop n xs)
unfolding drop
drop-below-take zero xs h = All-trivial xs
drop-below-take (suc n) [] h = tt
drop-below-take (suc n) (x ∷ xs) h =
    All-both _ _ (drop n xs) (All-drop _ n xs h.0) (drop-below-take n xs h.1)

length-take : (n : ℕ) (xs : List BareRecommendation) → length (take n xs) ≤ n
length-take zero xs = omega arith
length-take (suc n) [] = omega arith
length-take (suc n) (x ∷ xs) = omega (arith, length-take n xs)

take-full : (n : ℕ) (xs : List BareRecommendation) → (drop n xs ≡ []) ⊎ (length (take n xs) ≡ n)
unfolding drop
take-full zero xs = inr refl
take-full (suc n) [] = inl refl
take-full (suc n) (x ∷ xs) = elim (take-full n xs) [ inl e ↦ inl e | inr e ↦ inr (ap suc e) ]

take-Best : (n : ℕ) (found : List BareRecommendation) → Best n (take n (sort found)) found
take-Best n found = record {
  rest = drop n (sort found);
  whole = subst (λ l. Perm l found) (sym (take-drop n (sort found))) (sort-perm found);
  falling = take-Descending n (sort found) (sort-Descending found);
  above = drop-below-take n (sort found) (sort-Descending found);
  bound = length-take n (sort found);
  full = take-full n (sort found);
}

-- Whether there is a beatmap and every predicate holds of it.
abbrev pub all_hold :
    {Predicate Beatmap : Type 0}
    → (Predicate → BareRecommendation → Beatmap → Bool)
    → List Predicate
    → BareRecommendation
    → Option Beatmap
    → Bool
all_hold test ps r none = false
all_hold test [] r (some b) = true
all_hold test (p ∷ ps) r (some b) = test p r b && all_hold test ps r (some b)

-- Whether there is a beatmap for a recommendation and every predicate holds of it; without
-- predicates any recommendation is good.
abbrev pub is_good :
    {Predicate Beatmap : Type 0}
    → (ℕ → Option Beatmap)
    → (Predicate → BareRecommendation → Beatmap → Bool)
    → List Predicate
    → BareRecommendation
    → Bool
is_good get_beatmap test [] r = true
is_good get_beatmap test (p ∷ ps) r = all_hold test (p ∷ ps) r (get_beatmap r.beatmap_id)

abbrev pub keep : (BareRecommendation → Bool) → List BareRecommendation → List BareRecommendation
keep good [] = []
keep good (r ∷ rs) = if good r then r ∷ keep good rs else keep good rs

for_beatmap-all_hold :
    {Predicate Beatmap : Type 0} (get_beatmap : ℕ → Option Beatmap)
    (test : Predicate → BareRecommendation → Beatmap → Bool) (ps : List Predicate)
    (r : BareRecommendation) (o : Option Beatmap)
    → for_beatmap get_beatmap test r o ps ≡ all_hold test ps r o
for_beatmap-all_hold get_beatmap test ps r none = refl
for_beatmap-all_hold get_beatmap test [] r (some b) = refl
for_beatmap-all_hold get_beatmap test (p ∷ ps) r (some b) =
    ap (λ t. test p r b && t) (for_beatmap-all_hold get_beatmap test ps r (some b))

passes-is_good :
    {Predicate Beatmap : Type 0} (get_beatmap : ℕ → Option Beatmap)
    (test : Predicate → BareRecommendation → Beatmap → Bool) (ps : List Predicate)
    (r : BareRecommendation)
    → passes get_beatmap test ps r ≡ is_good get_beatmap test ps r
unfolding passes
passes-is_good get_beatmap test [] r = refl
passes-is_good get_beatmap test (p ∷ ps) r =
    for_beatmap-all_hold get_beatmap test (p ∷ ps) r (get_beatmap r.beatmap_id)

passing-keep :
    {Predicate Beatmap : Type 0} (get_beatmap : ℕ → Option Beatmap)
    (test : Predicate → BareRecommendation → Beatmap → Bool) (ps : List Predicate)
    (rs : List BareRecommendation)
    → passing get_beatmap test ps rs ≡ keep (is_good get_beatmap test ps) rs
unfolding passing
passing-keep get_beatmap test ps [] = refl
passing-keep get_beatmap test ps (r ∷ rs) =
    rw (passes-is_good get_beatmap test ps r, passing-keep get_beatmap test ps rs) refl

-- The recommendations kept are the 1000 most probable of those that pass the predicates, or all of
-- them if they are not more, the most probable first.
pub get_top_recommendations-Best :
    {Predicate Beatmap : Type 0} (get_beatmap : ℕ → Option Beatmap)
    (test : Predicate → BareRecommendation → Beatmap → Bool)
    (recommendations : List BareRecommendation) (predicates : List Predicate)
    → Best 1000
        (get_top_recommendations get_beatmap test recommendations predicates)
        (keep (is_good get_beatmap test predicates) recommendations)
unfolding get_top_recommendations
get_top_recommendations-Best get_beatmap test recommendations predicates =
    subst (Best 1000 (take 1000 (sort (passing get_beatmap test predicates recommendations))))
      (passing-keep get_beatmap test predicates recommendations)
      (take-Best 1000 (passing get_beatmap test predicates recommendations))
