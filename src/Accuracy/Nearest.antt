-- ===== src/Accuracy/Nearest.antt =====
-- How close `closest` comes to the accuracy asked for.
use tillerinobot.Prelude.{
  refl, arith, ◌≡◌, ℕ, ◌+◌, ◌*◌, ◌≤◌, inl, inr, ◌-◌, none, some, Option, subst, sym,
}
use tillerinobot.Prelude.Int.{pos_part, neg_part, sub_ℕ_lem, pos, sub_ℕ}
use tillerinobot.Accuracy.{
  AccuracyDistribution, Best, try_all, abs_difference, unit, guess_300s, first_300s, rounds,
  get_best_300s, closest,
}
use tillerinobot.Accuracy.Closest.{
  HasError, Found, AtMost, tried, error_of, try_all-Found, try_all_least,
}
use tillerinobot.Accuracy.Guess.{Covers, Covers-guess, rounds_bound}

-- The numbers are those of a play of so many objects with so many misses.
abbrev pub Play : ℕ → ℕ → AccuracyDistribution → Type 0
Play all_objects misses d =
    (d.x300 + d.x100 + pos_part d.x50 + d.miss ≡ all_objects)
    × (d.miss ≡ misses)
    × (neg_part d.x50 ≡ 0)

-- Six times the accuracy, for each object.
abbrev pub points : AccuracyDistribution → ℕ
points d = 6 * d.x300 + 2 * d.x100 + pos_part d.x50

initial : Best
initial = record { best_300s = 0; best_100s = 0; best_error = none }

searched : ℕ → ℕ → Best
unfolding initial
searched acc aomm =
    let guess = guess_300s acc (pos aomm) in
    try_all acc aomm (rounds (pos aomm) guess) (first_300s guess) initial

searched-Found : (acc aomm : ℕ) → Found acc aomm (searched acc aomm)
unfolding searched
searched-Found acc aomm =
    let guess = guess_300s acc (pos aomm) in
    try_all-Found acc aomm (rounds (pos aomm) guess) (first_300s guess) initial
      (rounds_bound aomm guess) (ground arith)

error-AtMost :
    (acc aomm e : ℕ) (best : Best)
    → HasError acc aomm best best.best_error
    → AtMost e best.best_error
    → error_of acc aomm best.best_300s best.best_100s ≤ e
error-AtMost acc aomm e best h l = go best.best_error h l
  where
    go :
        (o : Option ℕ)
        → HasError acc aomm best o
        → AtMost e o
        → error_of acc aomm best.best_300s best.best_100s ≤ e
    go none h l = elim l [ ]
    go (some b) h l = omega (arith, h, l)

searched_least :
    (acc aomm x j : ℕ)
    → acc ≤ unit * (6 * aomm)
    → x + j ≤ aomm
    → error_of acc aomm (searched acc aomm).best_300s (searched acc aomm).best_100s
      ≤ error_of acc aomm x j
unfolding Covers searched try_all
searched_least acc aomm x j h b =
    let guess = guess_300s acc (pos aomm) in
    elim (Covers-guess acc aomm x j h b) [
      | inl (k, _, t, l) ↦ omega (
        arith,
        error-AtMost acc aomm (tried acc aomm k) (searched acc aomm) (searched-Found acc aomm).1
            (try_all_least acc aomm (rounds (pos aomm) guess) (first_300s guess) k initial t.0 t.1),
        l,
      )
      | inr (n, l) ↦ rw n l
    ]

get_best_300s_lem :
    (all_objects misses acc : ℕ)
    → misses ≤ all_objects
    → get_best_300s all_objects misses acc ≡ searched acc (all_objects - misses)
unfolding get_best_300s searched
get_best_300s_lem all_objects misses acc h = rw (sub_ℕ_lem all_objects misses h) refl

-- The 50s take what is left over.
rest_Play :
    (all_objects misses n j : ℕ)
    → misses ≤ all_objects
    → n + j ≤ all_objects - misses
    → Play all_objects misses
        (record { x300 = n; x100 = j; x50 = sub_ℕ all_objects (n + j + misses); miss = misses })
rest_Play all_objects misses n j h l = (ground arith, refl, ground arith)

Play-points :
    (all_objects misses : ℕ) (d : AccuracyDistribution)
    → Play all_objects misses d
    → (points d ≡ all_objects - misses + 5 * d.x300 + d.x100)
      × (d.x300 + d.x100 ≤ all_objects - misses)
Play-points all_objects misses d p = ground (arith, p)

-- The numbers that `closest` returns add up to the number of objects, none is negative, and the
-- misses are those given, if they are no more than the objects, whatever the accuracy.
pub closest-Play :
    (all_objects misses acc : ℕ)
    → misses ≤ all_objects
    → Play all_objects misses (closest all_objects misses acc)
unfolding closest
closest-Play all_objects misses acc h =
    let best = get_best_300s all_objects misses acc in
    let aomm = all_objects - misses in
    rest_Play all_objects misses best.best_300s best.best_100s h (
      subst (λ b. b.best_300s + b.best_100s ≤ aomm)
        (sym (get_best_300s_lem all_objects misses acc h)) (searched-Found acc aomm).0)

-- If so much accuracy is possible with so many misses, no play of as many objects and misses is
-- closer to it than what `closest` returns.
pub closest_nearest :
    (all_objects misses acc : ℕ) (other : AccuracyDistribution)
    → misses ≤ all_objects
    → acc ≤ unit * (6 * (all_objects - misses))
    → Play all_objects misses other
    → abs_difference acc (unit * points (closest all_objects misses acc))
      ≤ abs_difference acc (unit * points other)
unfolding closest
closest_nearest all_objects misses acc other h b p =
    let aomm = all_objects - misses in
    let best = get_best_300s all_objects misses acc in
    let q = Play-points all_objects misses other p in
    let r =
      Play-points all_objects misses (closest all_objects misses acc)
        (closest-Play all_objects misses acc h) in
    rw (q.0, r.0)
      (subst
        (λ b. error_of acc aomm b.best_300s b.best_100s ≤ error_of acc aomm other.x300 other.x100)
        (sym (get_best_300s_lem all_objects misses acc h))
        (searched_least acc aomm other.x300 other.x100 b q.1))

-- The accuracy of any play is met exactly.
pub closest-points :
    (all_objects misses : ℕ) (d : AccuracyDistribution)
    → misses ≤ all_objects
    → Play all_objects misses d
    → points (closest all_objects misses (unit * points d)) ≡ points d
closest-points all_objects misses d h p =
    let n =
      closest_nearest all_objects misses (unit * points d) d h
        (omega (arith, Play-points all_objects misses d p)) p in
    omega (arith, n)
