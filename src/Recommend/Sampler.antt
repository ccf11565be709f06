-- ===== src/Recommend/Sampler.antt =====
-- tillerinobot/src/main/java/tillerino/tillerinobot/recommendations/Sampler.java. Probabilities and
-- their sums are natural numbers of some small unit, so sums are exact. The sorted map is a list
-- of entries in the order of their keys. The random number is an argument.
pub mod Sums
pub mod Drawing
mod Tests
use tillerinobot.Prelude.{
  ℕ, ◌+◌, ◌-◌, Bool, true, false, Option, none, some, List, [], ◌∷◌, ◌++◌, if◌then◌else◌, ltb, ◌==◌,
}

module _ {ℓ} {T : Type ℓ} where
  -- `SortedMap.put`: the value of a key that is there is replaced.
  unfoldable pub put : ℕ → T → List (ℕ × T) → List (ℕ × T)
  put k v [] = (k, v) ∷ []
  put k v ((j, w) ∷ m) =
      if ltb k j then (k, v) ∷ (j, w) ∷ m else if k == j then (j, v) ∷ m else (j, w) ∷ put k v m

  -- The entries from the first key that is at least `x`, and those before it.
  unfoldable pub tail_map : ℕ → List (ℕ × T) → List (ℕ × T)
  tail_map x [] = []
  tail_map x ((j, w) ∷ m) = if ltb j x then tail_map x m else (j, w) ∷ m

  unfoldable pub head_map : ℕ → List (ℕ × T) → List (ℕ × T)
  head_map x [] = []
  head_map x ((j, w) ∷ m) = if ltb j x then (j, w) ∷ head_map x m else []

  abbrev pub values : List (ℕ × T) → List T
  values [] = []
  values ((j, w) ∷ m) = w ∷ values m

module _ {ℓ} {T : Type ℓ} (probability : T → ℕ) where
  pub record Sampler : Type ℓ where
    pub distribution : List (ℕ × T)
    pub sum : ℕ

  -- The loop of the constructor, and the last one of `sample`.
  unfoldable pub fill : List T → Sampler → Sampler
  fill [] s = s
  fill (elem ∷ rest) s = fill rest (record {
    distribution = put (s.sum + probability elem) elem s.distribution;
    sum = s.sum + probability elem;
  })

  unfoldable pub create : List T → Sampler
  unfolding fill
  create population = fill population (record { distribution = []; sum = 0 })

  unfoldable pub is_empty : Sampler → Bool
  is_empty s = elim s.distribution [ [] ↦ true | e ∷ m ↦ false ]

  unfoldable pub draw : List (ℕ × T) → List (ℕ × T) → Option (T × Sampler)
  unfolding fill
  draw before [] = none
  draw before ((key, chosen) ∷ rest) = some (
    chosen,
    fill (values rest) (record { distribution = before; sum = key - probability chosen }),
  )

  -- `sample` for the number `x` drawn from 0 to the sum; `none` if it has to draw again.
  unfoldable pub sample : ℕ → Sampler → Option (T × Sampler)
  unfolding draw
  sample x s = draw (head_map x s.distribution) (tail_map x s.distribution)
