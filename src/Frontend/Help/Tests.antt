-- ===== src/Frontend/Help/Tests.antt =====
-- A page with a hidden row of filters.
use tillerinobot.Prelude.{◌≡◌, refl, true, false, none, [], ◌∷◌}
use tillerinobot.Frontend.Help.{settings, Anchor, Dialog, Page, close, show_help}

abbrev filter_anchor : Anchor
filter_anchor = record { title = 1; shows = true; in_filter_row = true }

abbrev dialog : Dialog
dialog = record { name = settings; is_open = false; own = none; inner = [] }

abbrev page : Page
page = record {
  dialogs = dialog ∷ [];
  body = filter_anchor ∷ record filter_anchor { title = 2; in_filter_row = false } ∷ [];
  has_filter_rule = true;
  has_filter_row = true;
  filter_row_shown = false;
  auto_opened = false;
  popups = [];
  backdrops = 0;
}

show_test : ((show_help page).popups ≡ 1 ∷ 2 ∷ []) × ((show_help page).filter_row_shown ≡ true)
unfolding show_help close
show_test = (refl, refl)

abbrev opened : Page
opened = record page {
  dialogs = record dialog { is_open = true } ∷ [];
  popups = 1 ∷ [];
  backdrops = 1;
}
