-- ===== src/Recommend/Top.antt =====
-- `getTopRecommendations` of tillerinobot/src/main/java/tillerino/tillerinobot/recommendations/
-- RecommendationsManager.java, and BareRecommendation beside it. Probabilities are natural numbers
-- of some small unit. The beatmap of an id, null included, and what a predicate says of a
-- recommendation for a beatmap are arguments. `List.sort` is stable, as its documentation says.
pub mod Best
mod Tests
use tillerinobot.Prelude.{
  ℕ, Bool, true, false, ◌&&◌, Option, none, some, List, [], ◌∷◌, all, take, if◌then◌else◌, ltb,
}
use tillerinobot.Prelude.Int.{ℤ}

pub record BareRecommendation : Type 0 where
  pub beatmap_id : ℕ
  pub mods : ℤ
  pub causes : List ℤ
  pub personal_pp : Option ℤ
  pub probability : ℕ

module _ {Predicate Beatmap : Type 0} (get_beatmap : ℕ → Option Beatmap)
    (test : Predicate → BareRecommendation → Beatmap → Bool) where
  abbrev pub for_beatmap : BareRecommendation → Option Beatmap → List Predicate → Bool
  for_beatmap r none ps = false
  for_beatmap r (some b) ps = all (λ p. test p r b) ps

  -- Without predicates the beatmap is not loaded.
  pub passes : List Predicate → BareRecommendation → Bool
  passes [] r = true
  passes (p ∷ ps) r = for_beatmap r (get_beatmap r.beatmap_id) (p ∷ ps)

  -- `recommendationsLoop`.
  pub passing : List Predicate → List BareRecommendation → List BareRecommendation
  unfolding passes
  passing ps [] = []
  passing ps (r ∷ rs) = let rest = passing ps rs in if passes ps r then r ∷ rest else rest

insert : BareRecommendation → List BareRecommendation → List BareRecommendation
insert x [] = x ∷ []
insert x (y ∷ ys) =
    let rest = insert x ys in if ltb x.probability y.probability then y ∷ rest else x ∷ y ∷ ys

pub sort : List BareRecommendation → List BareRecommendation
unfolding insert
sort [] = []
sort (x ∷ xs) = insert x (sort xs)

pub get_top_recommendations :
    {Predicate Beatmap : Type 0}
    → (ℕ → Option Beatmap)
    → (Predicate → BareRecommendation → Beatmap → Bool)
    → List BareRecommendation
    → List Predicate
    → List BareRecommendation
unfolding passing sort
get_top_recommendations get_beatmap test recommendations predicates =
    take 1000 (sort (passing get_beatmap test predicates recommendations))
