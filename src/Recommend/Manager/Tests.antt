-- ===== src/Recommend/Manager/Tests.antt =====
-- A user with two recommendations.
use tillerinobot.Prelude.{ℕ, ◌≡◌, refl, true, false, Option, none, some, List, [], ◌∷◌, arith}
use tillerinobot.Prelude.Int.{ℤ, pos, negsuc}
use tillerinobot.Recommend.Sampler
use tillerinobot.Recommend.Sampler.Sums.{create-Holds}
use tillerinobot.Recommend.Top.{BareRecommendation}
use tillerinobot.Recommend.Settings.{initial}
use tillerinobot.Recommend.Request.Sample.{library}
use tillerinobot.Recommend.Manager.{
  Backend, Caches, weight, get_recommendation, load_meta, recommend, choose,
}
use tillerinobot.Recommend.Manager.Exhausted.{InRange, Holding, Exhausted, Loads, calls-Exhausted}

abbrev weighing : ℕ → ℕ → BareRecommendation
weighing id n = record {
  beatmap_id = id;
  mods = negsuc 0;
  causes = [];
  personal_pp = none;
  probability = n;
}

abbrev two : List BareRecommendation
two = weighing 1 3 ∷ weighing 2 4 ∷ []

-- What is known of a beatmap is its id.
abbrev backend : Backend ℕ ℕ ℕ
backend = record {
  library = library;
  donator = false;
  equals = λ r s. true;
  load_top_plays = some [];
  given_recommendations = [];
  effective_mods = λ m. m;
  load_recommendations = λ plays exclude model nomod mods. some two;
  get_beatmap = λ id. some id;
  test = λ p r b. true;
  load_beatmap = λ id mods. some id;
}

abbrev meta : BareRecommendation → ℕ
meta r = r.beatmap_id

loads_mods :
    (id : ℕ) (causes : List ℤ) (pp : Option ℤ) (p : ℕ) (mods : ℤ)
    → load_meta backend (record {
      beatmap_id = id;
      mods = mods;
      causes = causes;
      personal_pp = pp;
      probability = p;
    })
      ≡ some id
unfolding load_meta
loads_mods id causes pp p (pos n) = refl
loads_mods id causes pp p (negsuc n) = refl

loads : Loads backend meta
loads r = loads_mods r.beatmap_id r.causes r.personal_pp r.probability r.mods

abbrev cached : Caches ℕ ℕ
cached = record { sampler = some (initial, Sampler.create weight two); last = none }

holding : Holding backend initial two cached
holding = record {
  sampler = Sampler.create weight two;
  cached = refl;
  held = create-Holds weight two (omega arith, (omega arith, tt));
  positive = (omega arith, (omega arith, tt));
}

in_range : InRange backend (5 ∷ 2 ∷ []) cached
unfolding get_recommendation recommend choose load_meta Sampler.create Sampler.fill Sampler.put
    Sampler.is_empty Sampler.sample Sampler.draw Sampler.head_map Sampler.tail_map
in_range = (omega arith, (omega arith, tt))

calls-Exhausted_example : Exhausted backend meta two (5 ∷ 2 ∷ []) cached
calls-Exhausted_example =
    calls-Exhausted backend initial meta two (5 ∷ 2 ∷ []) cached loads holding refl in_range
