-- ===== src/Site/Bundle.antt =====
-- `makeBundle` of
-- ppaddict-site/src/main/java/org/tillerino/ppaddict/server/BeatmapTableServiceImpl.java, which cuts
-- a page out of the beatmaps that a search selects. What it makes of a beatmap is an argument.
pub mod Pages
mod Tests
use tillerinobot.Prelude.{
  ℕ, ◌+◌, List, [], ◌∷◌, ◌++◌, length, if◌then◌else◌, leb, ltb, Bool, false, Option, some, none,
  zero, suc,
}

pub record BeatmapBundle {ℓ} (Beatmap : Type ℓ) : Type ℓ where
  pub beatmaps : List Beatmap
  pub available : ℕ
  pub logged_in : Bool

module _ {ℓ κ} {BeatmapData : Type ℓ} {Beatmap : Type κ}
    (make_beatmap : BeatmapData → Beatmap) where
  abbrev pub min : ℕ → ℕ → ℕ
  min a b = if ltb b a then b else a

  abbrev pub added : ℕ → ℕ → ℕ → BeatmapData → List Beatmap → List Beatmap
  added size start x data1 beatmaps =
      if leb (min size start) x then beatmaps ++ (make_beatmap data1 ∷ []) else beatmaps

  -- The loop, for a request of `len` beatmaps: the counter and the beatmaps of the bundle so far.
  pub collect : ℕ → ℕ → ℕ → List BeatmapData → ℕ → List Beatmap → List Beatmap
  collect size start len [] x beatmaps = beatmaps
  collect size start len (data1 ∷ selection) x beatmaps =
      let more = added size start x data1 beatmaps in
      let rest = collect size start len selection (x + 1) more in
      if leb len (length more) then more else rest

  pub make_bundle : ℕ → ℕ → List BeatmapData → BeatmapBundle Beatmap
  unfolding collect
  make_bundle start len selection = record {
    beatmaps = collect (length selection) start len selection 0 [];
    available = length selection;
    logged_in = false;
  }

  -- The start of the row "Loading more..." of `formatBeatmapsTable`, if the table has one.
  abbrev pub next_start : ℕ → ℕ → ℕ → Option ℕ
  next_start start len available = if ltb (start + len) available then some (start + len) else none

  -- The rows that take the place of that row.
  pub loaded : Option ℕ → (ℕ → List Beatmap) → List Beatmap
  loaded none rows = []
  loaded (some start) rows = rows start

  -- The rows of the table and of the rows that are loaded when its end is reached, so many times.
  pub scroll : ℕ → ℕ → ℕ → List BeatmapData → List Beatmap
  unfolding make_bundle loaded
  scroll zero start len selection = []
  scroll (suc n) start len selection =
      let bundle = make_bundle start len selection in
      let more = next_start start len bundle.available in
      bundle.beatmaps ++ loaded more (λ s. scroll n s len selection)
