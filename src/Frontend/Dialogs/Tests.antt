-- ===== src/Frontend/Dialogs/Tests.antt =====
-- A dialog, a button and a row.
use tillerinobot.Prelude.{ℕ, ◌≡◌, refl, Option, none, some, List, [], ◌∷◌}
use tillerinobot.Prelude.Int.{pos}
use tillerinobot.Frontend.Position.{Side, top, bottom, left, right}
use tillerinobot.Frontend.Dialogs.{
  closed, Dialog, Button, Row, update_edit_dialog, comment_text, trim, trim_start, trim_end,
}

abbrev below : Side → Option Side
below top = some bottom
below left = some left
below bottom = none
below right = none

abbrev dialog : ℕ → Dialog
dialog n = record {
  id = n;
  mode = closed;
  element = record {
    width = pos 30;
    height = pos 20;
    attribute = below;
    style_top = none;
    style_left = none;
  };
}

abbrev button : Button
button = record {
  command_for = some 2;
  rect = record { top_edge = pos 5; bottom_edge = pos 9; left_edge = pos 4; right_edge = pos 8 };
}

abbrev dialogs : List Dialog
dialogs = dialog 1 ∷ dialog 2 ∷ []

abbrev row : Row
row = record {
  beatmap_id = some (b'1' ∷ []);
  beatmap_set_id = none;
  mods = some (b'0' ∷ []);
  comments = some (some (b' ' ∷ b'h' ∷ b' ' ∷ b'i' ∷ b' ' ∷ []));
}

edit_test : (update_edit_dialog row).edit_comment ≡ b'h' ∷ b' ' ∷ b'i' ∷ []
unfolding update_edit_dialog comment_text trim trim_start trim_end
edit_test = refl
