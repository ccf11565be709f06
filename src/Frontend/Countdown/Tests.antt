-- ===== src/Frontend/Countdown/Tests.antt =====
-- A countdown that replaces another one.
use tillerinobot.Prelude.{◌≡◌, refl, true, false, some, [], ◌∷◌, arith}
use tillerinobot.Frontend.Countdown.{Page, start_countdown, tick, set_dialog}
use tillerinobot.Frontend.Countdown.Runs.{OnlyOne, here, next, start, second, dialog, Reach-OnlyOne}

abbrev page : Page
page = record {
  current = some 3;
  alive = record { id = 3; remaining = 2 } ∷ [];
  next_id = 4;
  dialog_open = true;
  shown = 2;
  completed = 0;
}

replaced : (start_countdown 5 page).alive ≡ record { id = 4; remaining = 5 } ∷ []
unfolding start_countdown
replaced = refl

page-OnlyOne : OnlyOne page
page-OnlyOne = (refl, refl, omega arith)

Reach-OnlyOne_example : OnlyOne (tick 4 (set_dialog false (start_countdown 5 page)))
Reach-OnlyOne_example =
    Reach-OnlyOne page-OnlyOne (next (next (next here (start 5)) (dialog false)) (second 4))
