-- ===== src/Recommend/Manager.antt =====
-- RecommendationsManager of tillerinobot/src/main/java/tillerino/tillerinobot/recommendations: loading
-- a sampler and `getRecommendation`, on what the two caches hold for one user. What the recommender,
-- the database, the table of beatmaps and `Mods` answer are the fields of `Backend`. An exception of
-- the recommender is `none`; one of `loadBeatmap` ends the call as null does. The number that the
-- sampler draws is an argument; `draws_again` says that it has to draw another.
pub mod Exhausted
mod Tests
use tillerinobot.Prelude.{
  ℕ, ◌/◌, Bool, true, false, Option, none, some, List, [], ◌∷◌, ◌++◌, map, length, take,
  if◌then◌else◌, ltb, leb, ◌==◌,
}
use tillerinobot.Prelude.Int.{ℤ, pos, negsuc}
use tillerinobot.Recommend.Sampler.{Sampler, create, sample, is_empty}
use tillerinobot.Recommend.Top.{BareRecommendation, get_top_recommendations}
use tillerinobot.Recommend.Settings.{
  Library, Model, RecommendationPredicate, Request, Refusal, Parsing, accepted, refused, Shift,
  regular, succ, succer, succerberg,
}
use tillerinobot.Recommend.Request.{parse_sampler_settings}

pub record TopPlay : Type 0 where
  pub beatmapid : ℕ
  pub mods : ℕ
  pub pp : ℕ

pub record Backend (Mod Beatmap Meta : Type 0) : Type 0 where
  pub library : Library Mod
  pub donator : Bool
  pub equals : Request Mod → Request Mod → Bool
  pub load_top_plays : Option (List TopPlay)
  pub given_recommendations : List ℕ
  pub effective_mods : ℕ → ℕ
  pub load_recommendations :
      List TopPlay → List ℕ → Model → Bool → ℕ → Option (List BareRecommendation)
  pub get_beatmap : ℕ → Option Beatmap
  pub test : RecommendationPredicate Mod → BareRecommendation → Beatmap → Bool
  pub load_beatmap : ℕ → ℤ → Option Meta

abbrev pub weight : BareRecommendation → ℕ
weight r = r.probability

-- `sorted(Comparator.comparingDouble(TopPlay::getPp))`.
insert_play : TopPlay → List TopPlay → List TopPlay
insert_play x [] = x ∷ []
insert_play x (y ∷ ys) =
    let rest = insert_play x ys in if leb x.pp y.pp then x ∷ y ∷ ys else y ∷ rest

sort_plays : List TopPlay → List TopPlay
unfolding insert_play
sort_plays [] = []
sort_plays (x ∷ xs) = insert_play x (sort_plays xs)

-- The plays that a shift leaves.
pub shifted : Shift → List TopPlay → List TopPlay
unfolding sort_plays
shifted regular plays = plays
shifted succ plays = take (length plays / 2) (sort_plays plays)
shifted succer plays = take (length plays / 4) (sort_plays plays)
shifted succerberg plays = take 5 (sort_plays plays)

module _ (Mod Meta : Type 0) where
  pub record Recommendation : Type 0 where
    pub beatmap : Meta
    pub bare : BareRecommendation

  -- The entries of `samplers` and `lastRecommendation` for the user.
  pub record Caches : Type 0 where
    pub sampler : Option (Request Mod × Sampler weight)
    pub last : Option Recommendation

  pub data Result : Type 0 where
    recommended : Recommendation → Result
    refuses : Refusal Mod → Result
    out_of_recommendations no_beatmap failed draws_again : Result

  pub data Chosen : Type 0 where
    chosen : Request Mod → Sampler weight → Chosen
    ends : Result → Chosen

module _ {Mod Beatmap Meta : Type 0} (backend : Backend Mod Beatmap Meta) where
  abbrev sampler_for : Request Mod → Option (List BareRecommendation) → Chosen Mod Meta
  sampler_for settings none = ends failed
  sampler_for settings (some found) = chosen settings (
      create weight
        (get_top_recommendations backend.get_beatmap backend.test found settings.predicates))

  with_plays : Request Mod → Option (List TopPlay) → Chosen Mod Meta
  unfolding shifted
  with_plays settings none = ends failed
  with_plays settings (some plays) =
      let effective =
        map (λ (p : TopPlay). record p { mods = backend.effective_mods p.mods }) plays in
      sampler_for settings (
        backend.load_recommendations (shifted settings.difficulty_shift effective)
          (backend.given_recommendations ++ map (λ (p : TopPlay). p.beatmapid) plays) settings.model
          settings.nomod settings.requested_mods)

  pub load_sampler : Request Mod → Chosen Mod Meta
  unfolding with_plays
  load_sampler settings = with_plays settings backend.load_top_plays

  -- The sampler for settings: the cached one if it was made for equal settings.
  pub for_settings : Option (Request Mod × Sampler weight) → Request Mod → Chosen Mod Meta
  unfolding load_sampler
  for_settings none settings = load_sampler settings
  for_settings (some (old, sampler)) settings =
      if backend.equals old settings then chosen old sampler else load_sampler settings

  for_parsed : Option (Request Mod × Sampler weight) → Parsing Mod (Request Mod) → Chosen Mod Meta
  unfolding for_settings
  for_parsed cached (accepted settings) = for_settings cached settings
  for_parsed cached (refused e) = ends (refuses e)

  -- The cached sampler is used again if there is no message.
  pub choose : Option (Request Mod × Sampler weight) → Option (List ℕ) → Chosen Mod Meta
  unfolding for_parsed
  choose (some (old, sampler)) none = chosen old sampler
  choose (some entry) (some message) =
      for_parsed (some entry) (parse_sampler_settings backend.library backend.donator message)
  choose none none = for_parsed none (parse_sampler_settings backend.library backend.donator [])
  choose none (some message) =
      for_parsed none (parse_sampler_settings backend.library backend.donator message)

  -- The beatmap without mods if they are unknown, or if there is none with them.
  pub load_meta : BareRecommendation → Option Meta
  load_meta r = elim r.mods [
    | negsuc n ↦ backend.load_beatmap r.beatmap_id (pos 0)
    | pos n ↦ elim (backend.load_beatmap r.beatmap_id (pos n)) [
      | none ↦ backend.load_beatmap r.beatmap_id (pos 0)
      | some m ↦ some m
    ]
  ]

  abbrev show_beatmap :
      BareRecommendation → Option Meta → Caches Mod Meta → Result Mod Meta × Caches Mod Meta
  show_beatmap r none s = (no_beatmap, s)
  show_beatmap r (some m) s =
      let shown : Recommendation Mod Meta = record { beatmap = m; bare = r } in
      (recommended shown, record s { last = some shown })

  abbrev after_sample :
      Request Mod
      → Sampler weight
      → Option (BareRecommendation × Sampler weight)
      → Caches Mod Meta
      → Result Mod Meta × Caches Mod Meta
  after_sample settings sampler none s =
      (draws_again, record s { sampler = some (settings, sampler) })
  after_sample settings sampler (some (r, rest)) s =
      show_beatmap r (load_meta r) (record s { sampler = some (settings, rest) })

  pub recommend : Chosen Mod Meta → ℕ → Caches Mod Meta → Result Mod Meta × Caches Mod Meta
  unfolding load_meta
  recommend (ends result) x s = (result, s)
  recommend (chosen settings sampler) x s =
      if is_empty weight sampler
      then (out_of_recommendations, record s { sampler = none })
      else after_sample settings sampler (sample weight x sampler) s

  pub get_recommendation : Option (List ℕ) → ℕ → Caches Mod Meta → Result Mod Meta × Caches Mod Meta
  unfolding choose recommend
  get_recommendation message x s = recommend (choose s.sampler message) x s
