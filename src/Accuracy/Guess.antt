-- ===== src/Accuracy/Guess.antt =====
-- What the loop of `getBest300s` tries is good enough: its guess of the 300s.
use tillerinobot.Prelude.{
  arith, ◌≡◌, ℕ, zero, suc, ◌+◌, ◌*◌, ◌≤◌, ◌<◌, ◌⊎◌, inl, inr, Bool-cases, true, ltb, leb, ◌-◌, ◌/◌,
}
use tillerinobot.Prelude.Int.{ℤ, pos, negsuc, ◌+ℤ◌, ◌-ℤ◌}
use tillerinobot.Accuracy.{unit, guess_300s, first_300s, rounds}
use tillerinobot.Accuracy.Closest.{tried, error_of, tried_least}

-- The guess is `g`: the nearest to a fifth of what is above one point for each object hit.
abbrev Guessed : ℕ → ℕ → ℕ → Type 0
Guessed acc aomm g =
    (2 * unit * (aomm + 5 * g) ≤ 2 * acc + 5 * unit)
    × (2 * acc < 2 * unit * (aomm + 5 * g) + 5 * unit)

-- Fewer 300s than one below the guess are no better.
fewer_no_better :
    (acc aomm g x j : ℕ)
    → suc g ≤ aomm
    → x < g
    → x + j ≤ aomm
    → Guessed acc aomm (suc g)
    → (acc < unit * (aomm + 5 * suc g) → tried acc aomm g ≤ error_of acc aomm x j)
      × (unit * (aomm + 5 * suc g) ≤ acc → tried acc aomm (suc g) ≤ error_of acc aomm x j)
fewer_no_better acc aomm g x j a b c d = (λ l. ground (arith), λ l. ground (arith))

-- More 300s than one above the guess are no better.
more_no_better :
    (acc aomm g x j : ℕ)
    → g ≤ aomm
    → suc g < x
    → x + j ≤ aomm
    → Guessed acc aomm g
    → tried acc aomm g ≤ error_of acc aomm x j
more_no_better acc aomm g x j a b c d = ground arith

guess_cases :
    (acc aomm : ℕ)
    → ((g : ℕ) × (guess_300s acc (pos aomm) ≡ pos g) × Guessed acc aomm g)
      ⊎ ((n : ℕ) × (guess_300s acc (pos aomm) ≡ negsuc n) × (2 * acc + 5 * unit < 2 * unit * aomm))
guess_cases acc aomm = elim (Bool-cases (leb (2 * unit * aomm) (2 * acc + 5 * unit))) [
  | inl low ↦ inl (
    (2 * acc + 5 * unit - 2 * unit * aomm) / (10 * unit),
    ground arith,
    (ground arith, ground arith),
  )
  | inr high ↦
      inr ((2 * unit * aomm - (2 * acc + 5 * unit) - 1) / (10 * unit), ground arith, ground arith)
]

-- `k` is one of the numbers of 300s that the loop tries.
abbrev pub Tries : ℕ → ℤ → ℕ → Type 0
Tries aomm guess k = (first_300s guess ≤ k) × (k < rounds (pos aomm) guess + first_300s guess)

Tries-pos : (aomm g k : ℕ) → g ≤ aomm → g ≤ suc k → k ≤ suc g → k ≤ aomm → Tries aomm (pos g) k
unfolding ◌+ℤ◌ ◌-ℤ◌
Tries-pos aomm g k a b c d = ground arith

Tries-none : (aomm n : ℕ) → (rounds (pos aomm) (negsuc n) ≡ 0) ⊎ Tries aomm (negsuc n) 0
unfolding ◌+ℤ◌ ◌-ℤ◌
Tries-none aomm zero = inr (ground arith)
Tries-none aomm (suc n) = inl (ground arith)

pub rounds_bound :
    (aomm : ℕ) (guess : ℤ)
    → (rounds (pos aomm) guess ≡ 0) ⊎ (rounds (pos aomm) guess + first_300s guess ≤ suc aomm)
unfolding ◌+ℤ◌ ◌-ℤ◌
rounds_bound aomm (pos g) = ground arith
rounds_bound aomm (negsuc n) = ground arith

-- Some number that the loop tries is at least as good as `x` 300s and `j` 100s, or it tries none,
-- and none of both is as good.
unfoldable pub Covers : ℕ → ℕ → ℤ → ℕ → Type 0
Covers acc aomm guess e =
    ((k : ℕ) × (k ≤ aomm) × Tries aomm guess k × (tried acc aomm k ≤ e))
    ⊎ ((rounds (pos aomm) guess ≡ 0) × (error_of acc aomm 0 0 ≤ e))

Covers-pos :
    (acc aomm g x j : ℕ)
    → g ≤ aomm
    → x + j ≤ aomm
    → Guessed acc aomm g
    → Covers acc aomm (pos g) (error_of acc aomm x j)
unfolding Covers
Covers-pos acc aomm g x j a b c = elim (Bool-cases (ltb (suc g) x)) [
  | inl more ↦ inl (
    g,
    a,
    Tries-pos aomm g g a (omega arith) (omega arith) a,
    more_no_better acc aomm g x j a (ground arith) b c,
  )
  | inr not_more ↦ elim (Bool-cases (ltb (suc x) g)) [
    | inr near ↦ inl (
      x,
      omega arith,
      Tries-pos aomm g x a (ground arith) (ground arith) (omega arith),
      tried_least acc aomm x j b,
    )
    | inl fewer ↦ Covers-fewer g a c fewer
  ]
]
  where
    Covers-fewer :
        (g : ℕ)
        → g ≤ aomm
        → Guessed acc aomm g
        → ltb (suc x) g ≡ true
        → Covers acc aomm (pos g) (error_of acc aomm x j)
    Covers-fewer zero a c fewer = ground arith
    Covers-fewer (suc g) a c fewer =
        let l = fewer_no_better acc aomm g x j a (ground arith) b c in
        elim (Bool-cases (ltb acc (unit * (aomm + 5 * suc g)))) [
          | inl low ↦ inl (
            g,
            omega arith,
            Tries-pos aomm (suc g) g a (omega arith) (omega arith) (omega arith),
            l.0 (ground arith),
          )
          | inr high ↦ inl (
            suc g,
            a,
            Tries-pos aomm (suc g) (suc g) a (omega arith) (omega arith) a,
            l.1 (ground arith),
          )
        ]

pub Covers-guess :
    (acc aomm x j : ℕ)
    → acc ≤ unit * (6 * aomm)
    → x + j ≤ aomm
    → Covers acc aomm (guess_300s acc (pos aomm)) (error_of acc aomm x j)
unfolding Covers
Covers-guess acc aomm x j h b = elim (guess_cases acc aomm) [
  | inl (g, e, c) ↦ rw e (Covers-pos acc aomm g x j (ground arith) b c)
  | inr (n, e, c) ↦ rw e (elim (Tries-none aomm n) [
    | inl none_ ↦ inr (none_, ground arith)
    | inr zero_ ↦ inl (0, ground arith, zero_, ground arith)
  ])
]
