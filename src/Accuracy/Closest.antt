-- ===== src/Accuracy/Closest.antt =====
-- What the loop of `getBest300s` keeps.
use tillerinobot.Prelude.{
  arith, ◌≡◌, ℕ, zero, suc, ◌+◌, ◌*◌, ◌≤◌, ◌<◌, Option, none, some, ◌⊎◌, inl, inr, Bool-cases, true,
  false, ◌==◌,
}
use tillerinobot.Accuracy.{Best, unit, abs_difference, improves, local_acc, try_300s, try_all}

-- The error of so many 300s and 100s, `aomm` objects being hit.
abbrev pub error_of : ℕ → ℕ → ℕ → ℕ → ℕ
error_of acc aomm n j = abs_difference acc (unit * (aomm + 5 * n + j))

abbrev pub HasError : ℕ → ℕ → Best → Option ℕ → Type 0
HasError acc aomm best none = (best.best_300s ≡ 0) × (best.best_100s ≡ 0)
HasError acc aomm best (some e) = e ≡ error_of acc aomm best.best_300s best.best_100s

-- Objects suffice for what was found, and the error is that of what was found.
abbrev pub Found : ℕ → ℕ → Best → Type 0
Found acc aomm best =
    (best.best_300s + best.best_100s ≤ aomm) × HasError acc aomm best best.best_error

abbrev pub AtMost : ℕ → Option ℕ → Type 0
AtMost e none = ⊥
AtMost e (some best) = best ≤ e

abbrev pub tried : ℕ → ℕ → ℕ → ℕ
tried acc aomm n = abs_difference acc (unit * local_acc acc aomm n)

local_acc_bounds :
    (acc aomm n : ℕ)
    → n ≤ aomm
    → (aomm + n * 5 ≤ local_acc acc aomm n) × (local_acc acc aomm n ≤ 2 * aomm + n * 4)
local_acc_bounds acc aomm n h = ground arith

-- The 100s that a round takes are the best for its 300s.
pub tried_least : (acc aomm n j : ℕ) → n + j ≤ aomm → tried acc aomm n ≤ error_of acc aomm n j
tried_least acc aomm n j h = ground arith

try_300s-Found :
    (acc aomm n : ℕ) (best : Best)
    → n ≤ aomm
    → Found acc aomm best
    → Found acc aomm (try_300s acc aomm n best)
unfolding try_300s
try_300s-Found acc aomm n best h f =
    elim (Bool-cases (improves (tried acc aomm n) best.best_error)) [
      | inl better ↦ rw better (ground (arith, local_acc_bounds acc aomm n h))
      | inr not_better ↦ rw not_better f
    ]

improves-AtMost :
    (t e : ℕ) (best : Option ℕ)
    → (t ≤ e) ⊎ AtMost e best
    → (improves t best ≡ true → t ≤ e) × (improves t best ≡ false → AtMost e best)
improves-AtMost t e none h = ground arith
improves-AtMost t e (some b) h = ground arith

try_300s-AtMost :
    (acc aomm n e : ℕ) (best : Best)
    → (tried acc aomm n ≤ e) ⊎ AtMost e best.best_error
    → AtMost e (try_300s acc aomm n best).best_error
unfolding try_300s
try_300s-AtMost acc aomm n e best h =
    let l = improves-AtMost (tried acc aomm n) e best.best_error h in
    elim (Bool-cases (improves (tried acc aomm n) best.best_error)) [
      | inl better ↦ rw better (l.0 better)
      | inr not_better ↦ rw not_better (l.1 not_better)
    ]

try_all-AtMost :
    (acc aomm r n e : ℕ) (best : Best)
    → AtMost e best.best_error
    → AtMost e (try_all acc aomm r n best).best_error
unfolding try_all
try_all-AtMost acc aomm zero n e best h = h
try_all-AtMost acc aomm (suc r) n e best h =
    try_all-AtMost acc aomm r (suc n) e (try_300s acc aomm n best)
      (try_300s-AtMost acc aomm n e best (inr h))

pub try_all-Found :
    (acc aomm r n : ℕ) (best : Best)
    → (r ≡ 0) ⊎ (r + n ≤ suc aomm)
    → Found acc aomm best
    → Found acc aomm (try_all acc aomm r n best)
unfolding try_all
try_all-Found acc aomm zero n best h f = f
try_all-Found acc aomm (suc r) n best h f =
    try_all-Found acc aomm r (suc n) (try_300s acc aomm n best) (ground arith)
      (try_300s-Found acc aomm n best (ground arith) f)

-- The loop ends with an error that is no more than that of any number it tries.
pub try_all_least :
    (acc aomm r n k : ℕ) (best : Best)
    → n ≤ k
    → k < r + n
    → AtMost (tried acc aomm k) (try_all acc aomm r n best).best_error
unfolding try_all
try_all_least acc aomm zero n k best h l = ground arith
try_all_least acc aomm (suc r) n k best h l = elim (Bool-cases (n == k)) [
  | inl same ↦
      try_all-AtMost acc aomm r (suc n) (tried acc aomm k) (try_300s acc aomm n best)
        (try_300s-AtMost acc aomm n (tried acc aomm k) best (inl (ground (arith, same))))
  | inr other ↦
      try_all_least acc aomm r (suc n) k (try_300s acc aomm n best) (ground arith) (omega arith)
]
