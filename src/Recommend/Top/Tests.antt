-- ===== src/Recommend/Top/Tests.antt =====
-- Three recommendations, of which one fails the predicate.
use tillerinobot.Prelude.{ℕ, ◌*◌, ◌≡◌, refl, Bool, Option, none, some, List, [], ◌∷◌, ltb}
use tillerinobot.Recommend.Top.{BareRecommendation, get_top_recommendations}
use tillerinobot.Recommend.Top.Best.{Best, get_top_recommendations-Best}
use tillerinobot.Prelude.Int.{pos}

abbrev weighing : ℕ → ℕ → BareRecommendation
weighing id n = record {
  beatmap_id = id;
  mods = pos 0;
  causes = [];
  personal_pp = none;
  probability = n;
}

abbrev three : List BareRecommendation
three = weighing 1 5 ∷ weighing 2 9 ∷ weighing 3 7 ∷ []

abbrev get_beatmap : ℕ → Option ℕ
get_beatmap id = some (10 * id)

-- The predicate is a bound on what is known of the beatmap.
abbrev test : ℕ → BareRecommendation → ℕ → Bool
test bound r beatmap = ltb beatmap bound

best_first :
    get_top_recommendations get_beatmap test three (30 ∷ []) ≡ weighing 2 9 ∷ weighing 1 5 ∷ []
unfolding get_top_recommendations
best_first = refl

get_top_recommendations-Best_example :
    Best 1000
      (get_top_recommendations get_beatmap test three (30 ∷ []))
      (weighing 1 5 ∷ weighing 2 9 ∷ [])
get_top_recommendations-Best_example = get_top_recommendations-Best get_beatmap test three (30 ∷ [])
