-- ===== src/Frontend/Time/Tests.antt =====
-- Times as the page's inputs hold them.
use tillerinobot.Prelude.{◌≡◌, refl, [], ◌∷◌, arith}
use tillerinobot.Prelude.Int.{pos, negsuc, ◌+ℤ◌, ◌*ℤ◌}
use tillerinobot.Frontend.Time.{
  to_time, inexact, null, seconds, split_from, parse_int, parse_second, combine, signed, skip_space,
  is_space, read_radix, read_digits, digit,
}
use tillerinobot.Frontend.Time.Decimal.{to_time_lem}

times : Unit {0}
unfolding to_time split_from parse_int parse_second combine signed skip_space is_space read_radix
    read_digits digit ◌+ℤ◌ ◌*ℤ◌
times = tt

-- "1:30", "-1:5x" and "a:1".
to_time_tests :
    (to_time (b'1' ∷ b':' ∷ b'3' ∷ b'0' ∷ []) ≡ seconds (pos 90))
    × (to_time (b'-' ∷ b'1' ∷ b':' ∷ b'5' ∷ b'x' ∷ []) ≡ seconds (negsuc 54))
    × (to_time (b'a' ∷ b':' ∷ b'1' ∷ []) ≡ null)
unfolding times
to_time_tests = (refl, refl, refl)

-- "12:05".
to_time_lem_example : to_time (b'1' ∷ b'2' ∷ b':' ∷ b'0' ∷ b'5' ∷ []) ≡ seconds (pos 725)
to_time_lem_example =
    to_time_lem.0 b'1' b'0' (b'2' ∷ []) (b'5' ∷ []) (omega arith) (omega arith) (omega arith)

-- Sixteen nines are more than 2 ^ 53.
to_time_large :
    to_time (
      b'9' ∷ b'9' ∷ b'9' ∷ b'9' ∷ b'9' ∷ b'9' ∷ b'9' ∷ b'9' ∷ b'9' ∷ b'9' ∷ b'9' ∷ b'9' ∷ b'9'
      ∷ b'9' ∷ b'9' ∷ b'9' ∷ b':' ∷ b'0' ∷ [])
    ≡ inexact
unfolding times
to_time_large = refl
