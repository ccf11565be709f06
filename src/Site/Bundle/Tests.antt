-- ===== src/Site/Bundle/Tests.antt =====
-- Pages of five beatmaps; what is made of a beatmap is its number plus 1.
use tillerinobot.Prelude.{◌≡◌, refl, ℕ, ◌+◌, List, [], ◌∷◌, map, arith, none, some}
use tillerinobot.Site.Bundle.{collect, make_bundle, next_start, scroll}
use tillerinobot.Site.Bundle.Pages.{scroll-make_bundle}

abbrev selected : List ℕ
selected = 10 ∷ 20 ∷ 30 ∷ 40 ∷ 50 ∷ []

abbrev made : ℕ → ℕ
made data1 = data1 + 1

page_two : (make_bundle made 2 2 selected).beatmaps ≡ 31 ∷ 41 ∷ []
unfolding make_bundle collect
page_two = refl

page_last : (make_bundle made 4 2 selected).beatmaps ≡ 51 ∷ []
unfolding make_bundle collect
page_last = refl

page_behind : (make_bundle made 7 2 selected).beatmaps ≡ []
unfolding make_bundle collect
page_behind = refl

next_two : next_start made 2 2 5 ≡ some 4
next_two = refl

next_none : next_start made 3 2 5 ≡ none
next_none = refl

scroll-make_bundle_example : scroll made 3 0 2 selected ≡ map made selected
scroll-make_bundle_example = scroll-make_bundle made 3 2 selected (omega arith) (ground arith)
