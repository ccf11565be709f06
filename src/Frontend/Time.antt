-- ===== src/Frontend/Time.antt =====
-- `toTime` of code.js: "minutes:seconds" to seconds. Texts are lists of code points. `parseInt` is
-- the built-in one: white space (ASCII), a sign, an optional "0x", and the longest run of digits;
-- `none` is NaN. A number is a double, which holds the integers up to 2 ^ 53; beyond these, the
-- result is rounded or infinite, and its value is not modelled.

pub mod Decimal
mod Tests
use tillerinobot.Prelude.{
  ℕ, ◌+◌, ◌-◌, ◌*◌, ◌≤◌, ◌<◌, ◌≡◌, refl, Bool, true, false, ◌&&◌, ◌||◌, Option, none, some, List,
  [], ◌∷◌, ◌++◌, if◌then◌else◌, ltb, leb, ◌==◌, arith, All, ap, ◌∙◌, ◌≢◌, ◌^◌,
}
use tillerinobot.Prelude.Int.{ℤ, pos, negsuc, ◌+ℤ◌, ◌*ℤ◌, negate}

-- `value.split(':')`: the first part and the others.
pub split_from : List ℕ → List ℕ → List ℕ × List (List ℕ)
split_from cur [] = (cur, [])
split_from cur (c ∷ s) =
    let closed : List ℕ × List (List ℕ) = (let (p, ps) = split_from [] s in (cur, p ∷ ps)) in
    let longer = split_from (cur ++ c ∷ []) s in if c == b':' then closed else longer

is_space : ℕ → Bool
is_space c = c == 32 || (leb 9 c && leb c 13)

skip_space : List ℕ → List ℕ
unfolding is_space
skip_space [] = []
skip_space (c ∷ s) = if is_space c then skip_space s else c ∷ s

-- The value of a digit, at most 36 for other characters.
digit : ℕ → ℕ
digit c =
    if leb b'0' c && leb c b'9'
    then c - b'0'
    else if leb b'a' c && leb c b'z'
    then c - b'a' + 10
    else if leb b'A' c && leb c b'Z'
    then c - b'A' + 10
    else 36

-- The longest run of digits in `radix`, behind the number read so far; `none` if there is none.
read_digits : ℕ → Option ℕ → List ℕ → Option ℕ
read_digits radix acc [] = acc
read_digits radix acc (c ∷ s) =
    let more =
      read_digits radix (some ((elim acc [ none ↦ 0 | some n ↦ n ]) * radix + digit c)) s in
    if ltb (digit c) radix then more else acc

read_radix : List ℕ → Option ℕ
read_radix (c ∷ d ∷ s) =
    if c == b'0' && (d == b'x' || d == b'X')
    then read_digits 16 none s
    else read_digits 10 none (c ∷ d ∷ s)
read_radix s = read_digits 10 none s

signed : List ℕ → Option ℤ
signed [] = none
signed (c ∷ s) =
    if c == b'-'
    then (elim (read_radix s) [ none ↦ none | some n ↦ some (negate n) ])
    else elim (read_radix (if c == b'+' then s else c ∷ s)) [ none ↦ none | some n ↦ some (pos n) ]

pub parse_int : List ℕ → Option ℤ
parse_int s = signed (skip_space s)

-- `parseInt(p[1])`, NaN if there is no such part.
parse_second : List (List ℕ) → Option ℤ
parse_second [] = none
parse_second (p ∷ ps) = parse_int p

-- An integer that a double holds.
abbrev pub is_exact : ℤ → Bool
is_exact (pos n) = leb n (2 ^ 53)
is_exact (negsuc n) = leb (n + 1) (2 ^ 53)

pub data Time : Type 0 where
  null : Time
  seconds : ℤ → Time
  -- some number that `toTime` reads or computes is beyond those
  inexact : Time

-- `isNaN(i + s) ? null : i * 60 + s`.
combine : Option ℤ → Option ℤ → Time
combine (some i) (some s) =
    if is_exact i && (is_exact s && (is_exact (i *ℤ pos 60) && is_exact (i *ℤ pos 60 +ℤ s)))
    then seconds (i *ℤ pos 60 +ℤ s)
    else inexact
combine _ _ = null

pub to_time : List ℕ → Time
to_time value = let (p, ps) = split_from [] value in combine (parse_int p) (parse_second ps)
