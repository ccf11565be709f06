-- ===== src/Lang/Shuffler/Tests.antt =====
-- Three strings in another order, from the second one on.
use mathlib.Core.List.{Perm, perm_append_comm}
use mathlib.Core.List.Perm
use tillerinobot.Prelude.{
  ℕ, ◌≡◌, refl, some, none, List, [], ◌∷◌, ◌++◌, length, length-append, arith, String,
}
use tillerinobot.Lang.Shuffler.{StringShuffler, get, get_times}
use tillerinobot.Lang.Shuffler.Rounds.{Shuffles, get_times-Perm}

abbrev last_first : ℕ → List String → List String
last_first seed [] = []
last_first seed (x ∷ xs) = xs ++ (x ∷ [])

abbrev strings : List String
strings = "a" ∷ "b" ∷ "c" ∷ []

abbrev shuffler : StringShuffler
shuffler = record { seed = 5; index = 1 }

last_first-Shuffles : Shuffles last_first
last_first-Shuffles = record { permutes = permutes; keeps_length = keeps_length }
  where
    permutes : (seed : ℕ) (xs : List String) → Perm (last_first seed xs) xs
    permutes seed [] = Perm.rfl
    permutes seed (x ∷ xs) = perm_append_comm xs (x ∷ [])

    keeps_length : (seed : ℕ) (xs : List String) → length (last_first seed xs) ≡ length xs
    keeps_length seed [] = refl
    keeps_length seed (x ∷ xs) = omega (arith, length-append xs (x ∷ []))

get_times_round :
    get_times last_first 3 strings shuffler
    ≡ (some ("c" ∷ "a" ∷ "b" ∷ []), record shuffler { index = 4 })
unfolding get_times get
get_times_round = refl

-- The index is negative from the 2 ^ 31st call on.
get_negative : (get last_first strings (record shuffler { index = 2_147_483_648 })).0 ≡ none
unfolding get
get_negative = refl

get_times-Perm_example :
    (order : List String) × ((get_times last_first 3 strings shuffler).0 ≡ some order)
    × Perm order strings
get_times-Perm_example =
    get_times-Perm last_first strings shuffler last_first-Shuffles (omega arith) (omega arith)
