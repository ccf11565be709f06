-- ===== src/Frontend/Time/Decimal.antt =====
-- `toTime` on decimal minutes and seconds.
use tillerinobot.Prelude.{
  ℕ, ◌+◌, ◌-◌, ◌*◌, ◌≤◌, ◌<◌, ◌≡◌, refl, Option, none, some, List, [], ◌∷◌, ◌++◌, arith, All, ◌≢◌,
  ◌^◌, ◌&&◌, true,
}
use mathlib.Core.List.{append_assoc, append-nil}
use tillerinobot.Prelude.Int.{ℤ, pos, ◌+ℤ◌, ◌*ℤ◌}
use tillerinobot.Frontend.Time.{
  split_from, is_space, skip_space, digit, read_digits, read_radix, signed, parse_int, parse_second,
  combine, to_time, is_exact, null, seconds,
}

abbrev pub IsDigit : ℕ → Type 0
IsDigit c = (b'0' ≤ c) × (c ≤ b'9')

-- The number that decimal digits stand for.
abbrev pub decimal : ℕ → List ℕ → ℕ
decimal acc [] = acc
decimal acc (c ∷ s) = decimal (acc * 10 + (c - b'0')) s

abbrev pub IsColon : ℕ → Type 0
IsColon c = c ≡ b':'

split_from-digits :
    (cur ds s : List ℕ)
    → All IsDigit ds
    → split_from cur (ds ++ b':' ∷ s) ≡ (cur ++ ds, (split_from [] s).0 ∷ (split_from [] s).1)
unfolding split_from
split_from-digits cur [] s h = rw append-nil
split_from-digits cur (d ∷ ds) s h =
    ground (arith, split_from-digits (cur ++ d ∷ []) ds s h.1, append_assoc cur (d ∷ []) ds)

-- A text without a colon is one part.
split_from-whole : (cur s : List ℕ) → All (λ c. c ≢ b':') s → split_from cur s ≡ (cur ++ s, [])
unfolding split_from
split_from-whole cur [] h = rw append-nil
split_from-whole cur (c ∷ s) h =
    ground (arith, split_from-whole (cur ++ c ∷ []) s h.1, append_assoc cur (c ∷ []) s)

no_colon : (ds : List ℕ) → All IsDigit ds → All (λ c. c ≢ b':') ds
no_colon [] h = tt
no_colon (d ∷ ds) h = (omega arith, no_colon ds h.1)

digit-decimal : (c : ℕ) → IsDigit c → (digit c ≡ c - b'0') × (digit c < 10)
unfolding digit
digit-decimal c h = (ground arith, ground arith)

read_digits-decimal :
    (acc : ℕ) (ds : List ℕ) → All IsDigit ds → read_digits 10 (some acc) ds ≡ some (decimal acc ds)
unfolding read_digits
read_digits-decimal acc [] h = refl
read_digits-decimal acc (d ∷ ds) h =
    ground (arith, digit-decimal d h.0, read_digits-decimal (acc * 10 + (d - b'0')) ds h.1)

read_first :
    (d : ℕ) (ds : List ℕ)
    → All IsDigit (d ∷ ds)
    → read_digits 10 none (d ∷ ds) ≡ some (decimal 0 (d ∷ ds))
unfolding read_digits
read_first d ds h = ground (arith, digit-decimal d h.0, read_digits-decimal (d - b'0') ds h.1)

read_radix-decimal :
    (d : ℕ) (ds : List ℕ) → All IsDigit (d ∷ ds) → read_radix (d ∷ ds) ≡ some (decimal 0 (d ∷ ds))
unfolding read_radix
read_radix-decimal d [] h = read_first d [] h
read_radix-decimal d (e ∷ ds) h = ground (arith, read_first d (e ∷ ds) h)

skip_space-digit : (d : ℕ) (ds : List ℕ) → IsDigit d → skip_space (d ∷ ds) ≡ d ∷ ds
unfolding skip_space is_space
skip_space-digit d ds h = ground arith

signed-digit :
    (d : ℕ) (ds : List ℕ) (n : ℕ)
    → IsDigit d
    → read_radix (d ∷ ds) ≡ some n
    → signed (d ∷ ds) ≡ some (pos n)
unfolding signed
signed-digit d ds n h e = ground arith

parse_int-decimal :
    (d : ℕ) (ds : List ℕ)
    → All IsDigit (d ∷ ds)
    → parse_int (d ∷ ds) ≡ some (pos (decimal 0 (d ∷ ds)))
unfolding parse_int
parse_int-decimal d ds h =
    rw (skip_space-digit d ds h.0) (signed-digit d ds _ h.0 (read_radix-decimal d ds h))

combine-none : (i : Option ℤ) → combine i none ≡ null
unfolding combine
combine-none none = refl
combine-none (some i) = refl

exact_minutes :
    (m s : ℕ)
    → m * 60 + s ≤ 2 ^ 53
    → (is_exact (pos m)
        && (is_exact (pos s) && (is_exact (pos (m * 60)) && is_exact (pos (m * 60 + s)))))
      ≡ true
exact_minutes m s h = ground arith

combine-minutes :
    (m s : ℕ)
    → m * 60 + s ≤ 2 ^ 53
    → combine (some (pos m)) (some (pos s)) ≡ seconds (pos (m * 60 + s))
unfolding combine ◌+ℤ◌ ◌*ℤ◌
combine-minutes m s h = ground (arith, h)

-- "digits:digits" is its minutes times 60 plus its seconds, if that is at most 2 ^ 53; a text
-- without a colon is null.
pub to_time_lem :
    ((d e : ℕ) (ds es : List ℕ)
      → All IsDigit (d ∷ ds)
      → All IsDigit (e ∷ es)
      → decimal 0 (d ∷ ds) * 60 + decimal 0 (e ∷ es) ≤ 2 ^ 53
      → to_time (d ∷ ds ++ b':' ∷ e ∷ es)
        ≡ seconds (pos (decimal 0 (d ∷ ds) * 60 + decimal 0 (e ∷ es))))
    × ((s : List ℕ) → All (λ c. c ≢ b':') s → to_time s ≡ null)
unfolding to_time parse_second
to_time_lem = (
  λ d e ds es h k l.
      rw
        (
          split_from-digits [] (d ∷ ds) (e ∷ es) h,
          split_from-whole [] (e ∷ es) (no_colon (e ∷ es) k),
          parse_int-decimal d ds h,
          parse_int-decimal e es k,
        )
        (combine-minutes _ _ l),
  λ s h. rw (split_from-whole [] s h) (combine-none _),
)
