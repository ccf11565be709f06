-- ===== src/Accuracy/Flaws.antt =====
-- Where `closest` does not return what one may expect.
use tillerinobot.Prelude.{
  refl, arith, ◌≡◌, ℕ, zero, suc, ◌+◌, ◌-◌, ◌*◌, ◌/◌, ◌≤◌, ◌∙◌, some, none, ltb, false, ap,
}
use tillerinobot.Prelude.Int.{pos, sub_ℕ, sub_ℕ_lem, ◌+ℤ◌, ◌-ℤ◌}
use tillerinobot.Accuracy.{
  Best, abs_difference, unit, guess_300s, first_300s, rounds, local_acc, closest, try_all, try_300s,
}

-- With a guess of two more than the objects hit, the loop makes no round.
rounds_zero : (aomm g : ℕ) → aomm + 2 ≤ g → rounds (pos aomm) (pos g) ≡ 0
unfolding ◌+ℤ◌ ◌-ℤ◌
rounds_zero aomm g h = ground arith

guess_high :
    (acc aomm : ℕ)
    → unit * (12 * aomm + 15) ≤ 2 * acc
    → (g : ℕ) × (guess_300s acc (pos aomm) ≡ pos g) × (aomm + 2 ≤ g)
guess_high acc aomm h =
    ((2 * acc + 5 * unit - 2 * unit * aomm) / (10 * unit), ground arith, ground arith)

-- If the accuracy asked for is above what the misses allow by 7.5 points or more, all that are not
-- missed are 50s, which is the least accurate play.
pub closest_too_accurate :
    (all_objects misses acc : ℕ)
    → misses ≤ all_objects
    → unit * (12 * (all_objects - misses) + 15) ≤ 2 * acc
    → closest all_objects misses acc
      ≡ record { x300 = 0; x100 = 0; x50 = pos (all_objects - misses); miss = misses }
unfolding closest
closest_too_accurate all_objects misses acc h l =
    let g = guess_high acc (all_objects - misses) l in
    rw (sub_ℕ_lem all_objects misses h, g.1, rounds_zero (all_objects - misses) g.0 g.2)
      (ground arith)

-- An error of zero is final.
try_all_final :
    (acc aomm r n x y : ℕ)
    → let best : Best = record { best_300s = x; best_100s = y; best_error = some 0 } in
      try_all acc aomm r n best ≡ best
unfolding try_all try_300s
try_all_final acc aomm zero n x y = refl
try_all_final acc aomm (suc r) n x y =
    rw (not_below_zero (abs_difference acc (unit * local_acc acc aomm n)))
      (try_all_final acc aomm r (suc n) x y)
  where
    not_below_zero : (e : ℕ) → ltb e 0 ≡ false
    not_below_zero e = ground arith

exact_guess :
    (n j s : ℕ)
    → j ≤ 2
    → guess_300s (unit * (6 * suc n + 2 * j + s)) (pos (suc n + j + s)) ≡ pos (suc n)
exact_guess n j s h = ground arith

exact_rounds :
    (n a : ℕ) → n + 2 ≤ a → (first_300s (pos (suc n)) ≡ n) × (rounds (pos a) (pos (suc n)) ≡ 3)
unfolding ◌+ℤ◌ ◌-ℤ◌
exact_rounds n a h = (ground arith, ground arith)

-- The first round of the loop finds 50s and 100s for one 300 less.
exact_first :
    (n j s : ℕ)
    → j ≤ 2
    → 4 ≤ s
    → try_300s
        (unit * (6 * suc n + 2 * j + s))
        (suc n + j + s)
        n
        (record { best_300s = 0; best_100s = 0; best_error = none })
      ≡ record { best_300s = n; best_100s = j + 5; best_error = some 0 }
unfolding try_300s
exact_first n j s h l = ground arith

exact_search :
    (n j s : ℕ)
    → j ≤ 2
    → 4 ≤ s
    → try_all
        (unit * (6 * suc n + 2 * j + s))
        (suc n + j + s)
        3
        n
        (record { best_300s = 0; best_100s = 0; best_error = none })
      ≡ record { best_300s = n; best_100s = j + 5; best_error = some 0 }
unfolding try_all
exact_search n j s h l =
    let acc = unit * (6 * suc n + 2 * j + s) in
    let aomm = suc n + j + s in
    ap (try_all acc aomm 2 (suc n)) (exact_first n j s h l)
    ∙ try_all_final acc aomm 2 (suc n) n (j + 5)

-- For a play with at least one 300, at most two 100s and at least four 50s, `closest` does not
-- return the play, given its accuracy, but one 300 less, five 100s more and four 50s less.
pub closest_not_reproduced :
    (n j s misses : ℕ)
    → j ≤ 2
    → closest (suc n + j + (4 + s) + misses) misses (unit * (6 * suc n + 2 * j + (4 + s)))
      ≡ record { x300 = n; x100 = j + 5; x50 = pos s; miss = misses }
unfolding closest
closest_not_reproduced n j s misses h =
    let aomm = suc n + j + (4 + s) in
    let r = exact_rounds n aomm (omega arith) in
    rw
      (
        hit aomm misses,
        exact_guess n j (4 + s) h,
        r.1,
        r.0,
        exact_search n j (4 + s) h (omega arith),
      )
      (ground arith)
  where
    hit : (a m : ℕ) → sub_ℕ (a + m) m ≡ pos a
    hit a m = ground arith
