-- ===== src/Accuracy/Tests.antt =====
-- Plays of ten objects.
use tillerinobot.Prelude.{◌≡◌, ◌≤◌, ◌*◌, refl, arith}
use tillerinobot.Prelude.Int.{pos, ◌+ℤ◌, ◌-ℤ◌}
use tillerinobot.Accuracy.{AccuracyDistribution, unit, abs_difference, closest, try_300s}
use tillerinobot.Accuracy.Nearest.{points, closest_nearest}
use tillerinobot.Accuracy.Flaws.{closest_too_accurate, closest_not_reproduced}

abbrev played : AccuracyDistribution
played = record { x300 = 6; x100 = 1; x50 = pos 1; miss = 2 }

-- Half missed, and full accuracy asked for.
closest_misses : closest 10 5 60_000_000 ≡ record { x300 = 0; x100 = 0; x50 = pos 5; miss = 5 }
unfolding closest ◌+ℤ◌ ◌-ℤ◌
closest_misses = refl

closest_most : closest 10 0 55_000_000 ≡ record { x300 = 9; x100 = 0; x50 = pos 1; miss = 0 }
unfolding closest try_300s ◌+ℤ◌ ◌-ℤ◌
closest_most = refl

closest_nearest_example :
    abs_difference 39_400_000 (unit * points (closest 10 2 39_400_000))
    ≤ abs_difference 39_400_000 (unit * points played)
closest_nearest_example =
    closest_nearest 10 2 39_400_000 played (omega arith) (omega arith) (refl, refl, refl)

closest_too_accurate_example :
    closest 10 5 60_000_000 ≡ record { x300 = 0; x100 = 0; x50 = pos 5; miss = 5 }
closest_too_accurate_example = closest_too_accurate 10 5 60_000_000 (omega arith) (omega arith)

-- One 300 and nine 50s.
closest_not_reproduced_example :
    closest 10 0 15_000_000 ≡ record { x300 = 0; x100 = 5; x50 = pos 5; miss = 0 }
closest_not_reproduced_example = closest_not_reproduced 0 0 5 0 (omega arith)
