-- ===== src/Lang/Shuffler.antt =====
-- tillerinobot/src/main/java/tillerino/tillerinobot/lang/StringShuffler.java. `Collections.shuffle`
-- with a `Random` of a seed is a parameter. The index is an `int`: numbers from 2 ^ 31 on stand for
-- the negative ones.
pub mod Rounds
mod Tests
use tillerinobot.Prelude.{
  ℕ, zero, suc, ◌+◌, ◌-◌, ◌%◌, ◌^◌, Bool, Option, none, some, List, [], ◌∷◌, length, get_elem?,
  if◌then◌else◌, ltb, ◌==◌,
}

pub record StringShuffler : Type 0 where
  pub seed : ℕ
  pub index : ℕ

-- `index % n`, which is negative or zero for a negative index; `none` is an exception: no element
-- has a negative index, and the remainder by zero is not defined.
abbrev pub position : ℕ → ℕ → Option ℕ
position index n =
    if n == 0
    then none
    else if ltb index (2 ^ 31)
    then some (index % n)
    else if (2 ^ 32 - index) % n == 0
    then some 0
    else none

module _ {ℓ} {A : Type ℓ} where
  abbrev pub element : List A → Option ℕ → Option A
  element xs none = none
  element xs (some i) = get_elem? xs i

  abbrev pub join : Option A → Option (List A) → Option (List A)
  join none xs = none
  join (some x) none = none
  join (some x) (some xs) = some (x ∷ xs)

module _ {ℓ} {A : Type ℓ} (shuffle : ℕ → List A → List A) where
  -- The index is incremented whether or not the element is there.
  pub get : List A → StringShuffler → Option A × StringShuffler
  get strings s =
      let for_shuffling = shuffle s.seed strings in
      (
        element for_shuffling (position s.index (length for_shuffling)),
        record s { index = (s.index + 1) % 2 ^ 32 },
      )

  -- What so many calls with the same strings return.
  pub get_times : ℕ → List A → StringShuffler → Option (List A) × StringShuffler
  get_times zero strings s = (some [], s)
  get_times (suc n) strings s =
      let first = get strings s in
      let rest = get_times n strings first.1 in (join first.0 rest.0, rest.1)
