-- ===== src/Lang/Tsundere/Hugs.antt =====
-- The levels of hugs.
use tillerinobot.Prelude.{if◌then◌else◌, ℕ, ◌≡◌, ◌≢◌, ◌≤◌, ◌+◌, arith, String, ap}
use tillerinobot.Prelude.Int.{ℤ, pos, negsuc, pos_part, neg_part, sub_ℕ, ltb_ℤ, ◌+ℤ◌, ◌-ℤ◌, ◌≤ℤ◌}
use tillerinobot.Lang.Tsundere.{Texts, TsundereBase, raw_level, hug, increment}

-- The level is not the last one.
level_changes : (raw last : ℤ) → (if ltb_ℤ raw last then raw else raw +ℤ pos 1) ≢ last
unfolding ◌+ℤ◌
level_changes (pos n) (pos m) = ground arith
level_changes (pos n) (negsuc m) = ground arith
level_changes (negsuc n) (pos m) = ground arith
level_changes (negsuc n) (negsuc m) = ground arith

-- Different draws give different levels.
level_injective :
    (raw raw' last : ℤ)
    → (if ltb_ℤ raw last then raw else raw +ℤ pos 1)
      ≡ (if ltb_ℤ raw' last then raw' else raw' +ℤ pos 1)
    → raw ≡ raw'
unfolding ◌+ℤ◌
level_injective (pos n) (pos m) (pos l) e = ground arith
level_injective (pos n) (pos m) (negsuc l) e = ground arith
level_injective (pos n) (negsuc m) (pos l) e = ground arith
level_injective (pos n) (negsuc m) (negsuc l) e = ground arith
level_injective (negsuc n) (pos m) (pos l) e = ground arith
level_injective (negsuc n) (pos m) (negsuc l) e = ground arith
level_injective (negsuc n) (negsuc m) (pos l) e = ground arith
level_injective (negsuc n) (negsuc m) (negsuc l) e = ground arith

-- The parts of a difference, for `omega`.
sub_parts : (a b : ℕ) → pos_part (sub_ℕ a b) + b ≡ a + neg_part (sub_ℕ a b)
sub_parts a b = ground arith

sum_parts :
    (x : ℤ) (a b : ℕ)
    → let z = x +ℤ pos a +ℤ pos b -ℤ pos 3 in
      pos_part z + neg_part x + 3 ≡ pos_part x + a + b + neg_part z
unfolding ◌+ℤ◌ ◌-ℤ◌
sum_parts x a b =
    let y = x +ℤ pos a in
    let z = y +ℤ pos b in
    omega (
      arith,
      sub_parts (pos_part x + a) (neg_part x + 0),
      sub_parts (pos_part y + b) (neg_part y + 0),
      sub_parts (pos_part z + 0) (neg_part z + 3),
    )

raw_level_injective :
    (base : ℤ) (a b c d : ℕ) → raw_level base a b ≡ raw_level base c d → a + b ≡ c + d
raw_level_injective base a b c d e =
    let x = if ltb_ℤ base (pos 8) then base else pos 8 in
    omega (arith, sum_parts x a b, sum_parts x c d, ap pos_part e, ap neg_part e)

raw_bounds :
    (base : ℤ) (a b : ℕ)
    → a ≤ 2
    → b ≤ 2
    → pos 0 ≤ℤ base
    → (negsuc 2 ≤ℤ raw_level base a b) × (raw_level base a b ≤ℤ pos 9)
unfolding ◌+ℤ◌ ◌-ℤ◌
raw_bounds (pos n) a b h k p = ground arith
raw_bounds (negsuc n) a b h k p = ground arith

level_bounds :
    (raw last : ℤ)
    → negsuc 2 ≤ℤ raw
    → raw ≤ℤ pos 9
    → let level = if ltb_ℤ raw last then raw else raw +ℤ pos 1 in
      (negsuc 2 ≤ℤ level) × (level ≤ℤ pos 10)
unfolding ◌+ℤ◌
level_bounds (pos n) last l h = ground arith
level_bounds (negsuc n) last l h = ground arith

module _ {Shufflers : Type 0} (texts : Texts Shufflers) where
  -- Different sums of what is drawn give different levels.
  hug_injective :
      (base_level : ℕ → ℕ → ℤ) (a b c d : ℕ) (username : String) (s : TsundereBase texts)
      → (hug texts base_level a b username s).1.last_hug
        ≡ (hug texts base_level c d username s).1.last_hug
      → a + b ≡ c + d
  unfolding hug
  hug_injective base_level a b c d username s e =
      let base = base_level (increment s.recent_hugs) s.recent_recommendations in
      raw_level_injective base a b c d
        (level_injective (raw_level base a b) (raw_level base c d) s.last_hug e)

  -- No two hugs in a row are of the same level, and the level is from -3 to 10, with two draws of 0
  -- to 2 and a base level that is not negative.
  pub hug-changes :
      (base_level : ℕ → ℕ → ℤ) (a b : ℕ) (username : String) (s : TsundereBase texts)
      → a ≤ 2
      → b ≤ 2
      → ((n m : ℕ) → pos 0 ≤ℤ base_level n m)
      → ((hug texts base_level a b username s).1.last_hug ≢ s.last_hug)
        × (negsuc 2 ≤ℤ (hug texts base_level a b username s).1.last_hug)
        × ((hug texts base_level a b username s).1.last_hug ≤ℤ pos 10)
  unfolding hug
  hug-changes base_level a b username s h k p =
      let base = base_level (increment s.recent_hugs) s.recent_recommendations in
      let r = raw_bounds base a b h k (p (increment s.recent_hugs) s.recent_recommendations) in
      let l = level_bounds (raw_level base a b) s.last_hug r.0 r.1 in
      (level_changes (raw_level base a b) s.last_hug, l.0, l.1)
