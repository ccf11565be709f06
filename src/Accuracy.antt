-- ===== src/Accuracy.antt =====
-- `closest` and `getBest300s` of
-- tillerinobot/src/main/java/tillerino/tillerinobot/diff/AccuracyDistribution.java. The target, the
-- accuracy times six for each object, is an argument: a whole number of millionths. Numbers of
-- objects are so small that an `int` holds all sums.
pub mod Closest
mod Guess
pub mod Nearest
pub mod Flaws
mod Tests
use tillerinobot.Prelude.{
  ℕ, zero, suc, ◌+◌, ◌-◌, ◌*◌, ◌/◌, Bool, true, false, Option, none, some, if◌then◌else◌, ltb, leb,
}
use tillerinobot.Prelude.Int.{ℤ, pos, negsuc, pos_part, neg_part, sub_ℕ, ◌+ℤ◌, ◌-ℤ◌, ltb_ℤ}

pub record AccuracyDistribution : Type 0 where
  pub x300 : ℕ
  pub x100 : ℕ
  pub x50 : ℤ
  pub miss : ℕ

-- The millionths in one.
abbrev pub unit : ℕ
unit = 1_000_000

abbrev pub min : ℕ → ℕ → ℕ
min a b = if ltb b a then b else a

abbrev pub max : ℕ → ℕ → ℕ
max a b = if ltb a b then b else a

-- The distance of two numbers, `abs` of their difference.
abbrev pub abs_difference : ℕ → ℕ → ℕ
abs_difference a b = (a - b) + (b - a)

-- `Math.round` of a fraction, the nearest integer, upwards in the middle: the floor of one half
-- more. Both parts are doubled.
abbrev pub floor_div : ℤ → ℕ → ℤ
floor_div (pos n) d = pos (n / d)
floor_div (negsuc n) d = negsuc (n / d)

abbrev pub int_acc : ℕ → ℕ
int_acc acc = (2 * acc + unit) / (2 * unit)

-- `round((acc - aomm) / 5)`.
abbrev pub guess_300s : ℕ → ℤ → ℤ
guess_300s acc aomm =
    floor_div (sub_ℕ (2 * acc + 5 * unit + 2 * unit * neg_part aomm) (2 * unit * pos_part aomm))
      (10 * unit)

-- The best values so far; `none` is an infinite error.
pub record Best : Type 0 where
  pub best_300s : ℕ
  pub best_100s : ℕ
  pub best_error : Option ℕ

abbrev pub improves : ℕ → Option ℕ → Bool
improves error none = true
improves error (some best) = ltb error best

abbrev pub local_acc : ℕ → ℕ → ℕ → ℕ
local_acc acc aomm n = min (2 * aomm + n * 4) (max (aomm + n * 5) (int_acc acc))

-- One round, for `n` 300s.
pub try_300s : ℕ → ℕ → ℕ → Best → Best
try_300s acc aomm n best =
    if improves (abs_difference acc (unit * local_acc acc aomm n)) best.best_error
    then record {
      best_300s = n;
      best_100s = local_acc acc aomm n - (aomm + n * 5);
      best_error = some (abs_difference acc (unit * local_acc acc aomm n));
    }
    else best

-- So many rounds, from `n` upwards.
pub try_all : ℕ → ℕ → ℕ → ℕ → Best → Best
try_all acc aomm zero n best = best
try_all acc aomm (suc rounds) n best = try_all acc aomm rounds (suc n) (try_300s acc aomm n best)

-- The first number of 300s that the loop tries, and how many rounds it makes.
abbrev pub first_300s : ℤ → ℕ
first_300s guess = pos_part (guess -ℤ pos 1)

abbrev pub last_300s : ℤ → ℤ → ℤ
last_300s aomm guess = if ltb_ℤ (guess +ℤ pos 1) aomm then guess +ℤ pos 1 else aomm

abbrev pub rounds : ℤ → ℤ → ℕ
rounds aomm guess = pos_part (last_300s aomm guess +ℤ pos 1) - first_300s guess

pub get_best_300s : ℕ → ℕ → ℕ → Best
unfolding try_all
get_best_300s all_objects misses acc =
    let aomm = sub_ℕ all_objects misses in
    let guess = guess_300s acc aomm in
    try_all acc (pos_part aomm) (rounds aomm guess) (first_300s guess)
      (record { best_300s = 0; best_100s = 0; best_error = none })

pub closest : ℕ → ℕ → ℕ → AccuracyDistribution
unfolding get_best_300s
closest all_objects misses acc =
    let best = get_best_300s all_objects misses acc in
    record {
      x300 = best.best_300s;
      x100 = best.best_100s;
      x50 = sub_ℕ all_objects (best.best_300s + best.best_100s + misses);
      miss = misses;
    }
