-- ===== src/Commands/Tests.antt =====
-- Constants near a text.
use tillerinobot.Prelude.{ℕ, ◌≡◌, ◌↔◌, ◌≤◌, refl, List, length, [], ◌∷◌, if◌then◌else◌, ◌==◌}
use tillerinobot.Commands.Finding.{find, best_of, found, nothing_matches, all_match, find_lem}

-- Three constants at these distances from the text.
abbrev distances : ℕ → ℕ
distances n = if n == 7 then 0 else if n == 8 then 5 else 1

ambiguous : find distances (1 ∷ 8 ∷ 2 ∷ []) ≡ all_match (1 ∷ 2 ∷ [])
unfolding find best_of
ambiguous = refl

abbrev nearby : List ℕ
nearby = 7 ∷ []

find_lem_example :
    ((c : ℕ) → (find distances (1 ∷ 7 ∷ 2 ∷ []) ≡ found c) ↔ (nearby ≡ c ∷ []))
    × ((find distances (1 ∷ 7 ∷ 2 ∷ []) ≡ nothing_matches) ↔ (nearby ≡ []))
    × ((cs : List ℕ)
        → (find distances (1 ∷ 7 ∷ 2 ∷ []) ≡ all_match cs) ↔ ((nearby ≡ cs) × (2 ≤ length nearby)))
find_lem_example = find_lem distances (1 ∷ 7 ∷ 2 ∷ [])
