-- ===== src/Recommend/Sampler/Sums.antt =====
-- The entries that the constructor of Sampler.java makes, and the sums that are their keys.
use tillerinobot.Prelude.{
  ℕ, ◌+◌, ◌<◌, ◌≡◌, refl, List, [], ◌∷◌, ◌++◌, true, false, arith, All, ap, ◌∙◌, sym, subst,
}
use mathlib.Core.List.{append_assoc, append-nil}
use tillerinobot.Recommend.Sampler.{put, values, Sampler, fill, create, is_empty}

module _ {ℓ} {T : Type ℓ} (probability : T → ℕ) where
  abbrev pub total : List T → ℕ
  total [] = 0
  total (x ∷ xs) = probability x + total xs

  -- The entries for a list: each key is the sum up to and with its element.
  abbrev pub keyed : ℕ → List T → List (ℕ × T)
  keyed acc [] = []
  keyed acc (x ∷ xs) = (acc + probability x, x) ∷ keyed (acc + probability x) xs

  abbrev pub IsPositive : T → Type 0
  IsPositive x = 0 < probability x

  -- The sampler holds the elements of the list, in that order.
  pub record Holds (xs : List T) (s : Sampler probability) : Type ℓ where
    pub entries : s.distribution ≡ keyed 0 xs
    pub sum : s.sum ≡ total xs

  pub is_empty-Holds_nil : (s : Sampler probability) → Holds [] s → is_empty probability s ≡ true
  unfolding is_empty
  is_empty-Holds_nil s h = rw h.entries

  pub is_empty-Holds_cons :
      (x : T) (xs : List T) (s : Sampler probability)
      → Holds (x ∷ xs) s
      → is_empty probability s ≡ false
  unfolding is_empty
  is_empty-Holds_cons x xs s h = rw h.entries

  pub put-keyed :
      (acc k : ℕ) (v : T) (xs : List T)
      → acc + total xs < k
      → put k v (keyed acc xs) ≡ keyed acc xs ++ (k, v) ∷ []
  unfolding put
  put-keyed acc k v [] h = refl
  put-keyed acc k v (x ∷ xs) h =
      ground (arith, put-keyed (acc + probability x) k v xs (omega arith))

  pub keyed-append :
      (acc : ℕ) (xs ys : List T) → keyed acc (xs ++ ys) ≡ keyed acc xs ++ keyed (acc + total xs) ys
  keyed-append acc [] ys = ap (λ n. keyed n ys) (omega arith)
  keyed-append acc (x ∷ xs) ys = ap (◌∷◌ (acc + probability x, x)) (
      keyed-append (acc + probability x) xs ys
      ∙ ap (λ n. keyed (acc + probability x) xs ++ keyed n ys) (omega arith))

  pub total-append : (xs ys : List T) → total (xs ++ ys) ≡ total xs + total ys
  total-append [] ys = omega arith
  total-append (x ∷ xs) ys = omega (arith, total-append xs ys)

  zero_total : (xs : List T) (s : Sampler probability) → Holds xs s → s.sum ≡ 0 + total xs
  zero_total xs s h = omega (arith, h.sum)

  pub put-Holds :
      (xs : List T) (y : T) (s : Sampler probability)
      → IsPositive y
      → Holds xs s
      → Holds (xs ++ y ∷ []) (record {
        distribution = put (s.sum + probability y) y s.distribution;
        sum = s.sum + probability y;
      })
  put-Holds xs y s p h = record {
    entries =
        ap (put (s.sum + probability y) y) h.entries
        ∙ put-keyed 0 (s.sum + probability y) y xs (omega (arith, h.sum))
        ∙ ap (λ n. keyed 0 xs ++ (n + probability y, y) ∷ []) (zero_total xs s h)
        ∙ sym (keyed-append 0 xs (y ∷ []));
    sum = omega (arith, h.sum, total-append xs (y ∷ []));
  }

  pub fill-Holds :
      (xs ys : List T) (s : Sampler probability)
      → All IsPositive ys
      → Holds xs s
      → Holds (xs ++ ys) (fill probability ys s)
  unfolding fill
  fill-Holds xs [] s p h = record {
    entries = h.entries ∙ ap (keyed 0) (sym (append-nil xs));
    sum = h.sum ∙ ap total (sym (append-nil xs));
  }
  fill-Holds xs (y ∷ ys) s p h =
      subst (λ zs. Holds zs (fill probability (y ∷ ys) s)) (append_assoc xs (y ∷ []) ys)
        (fill-Holds (xs ++ y ∷ []) ys _ p.1 (put-Holds xs y s p.0 h))

  pub values-keyed : (acc : ℕ) (xs : List T) → values (keyed acc xs) ≡ xs
  values-keyed acc [] = refl
  values-keyed acc (x ∷ xs) = ap (◌∷◌ x) (values-keyed (acc + probability x) xs)

  -- A sampler made for elements of positive weight holds all of them, in the order given.
  pub create-Holds :
      (population : List T)
      → All IsPositive population
      → Holds population (create probability population)
  unfolding create
  create-Holds population p = fill-Holds [] population _ p (record { entries = refl; sum = refl })
