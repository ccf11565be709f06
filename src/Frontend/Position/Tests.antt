-- ===== src/Frontend/Position/Tests.antt =====
-- A popup at a concrete anchor.
use tillerinobot.Prelude.{◌≡◌, refl, false, some}
use tillerinobot.Prelude.Int.{pos, negsuc, ◌+ℤ◌, ◌-ℤ◌}
use tillerinobot.Frontend.Position.{
  Side, top, bottom, left, right, Rect, edge_of, is_zero, position_relative_to, above_right,
  help_placements, place_popup,
}

abbrev anchor : Rect
anchor = record { top_edge = pos 10; bottom_edge = pos 30; left_edge = pos 5; right_edge = pos 55 }

anchor-inside : (s : Side) → is_zero (edge_of anchor s) ≡ false
unfolding edge_of
anchor-inside top = refl
anchor-inside bottom = refl
anchor-inside left = refl
anchor-inside right = refl

above_test : (place_popup above_right anchor (pos 20) (pos 40)).style_top ≡ some (negsuc 35)
unfolding place_popup position_relative_to help_placements ◌+ℤ◌ ◌-ℤ◌
above_test = refl
