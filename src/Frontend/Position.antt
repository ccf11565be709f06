-- ===== src/Frontend/Position.antt =====
-- `positionRelativeTo` and `HELP_PLACEMENTS` of code.js. Pixels are integers.
pub mod Placing
mod Tests
use tillerinobot.Prelude.{ℕ, zero, suc, Bool, true, false, Option, none, some, if◌then◌else◌}
use tillerinobot.Prelude.Int.{ℤ, pos, negsuc, ◌+ℤ◌, ◌-ℤ◌}

pub data Side : Type 0 where
  top bottom left right : Side

-- `getBoundingClientRect()`.
pub record Rect : Type 0 where
  pub top_edge : ℤ
  pub bottom_edge : ℤ
  pub left_edge : ℤ
  pub right_edge : ℤ

-- The element to place: its size, its attributes (`none` for one that is missing or names no
-- side), and its style, `none` for a property that was not set.
pub record Element : Type 0 where
  pub width : ℤ
  pub height : ℤ
  pub attribute : Side → Option Side
  pub style_top : Option ℤ
  pub style_left : Option ℤ

unfoldable pub edge_of : Rect → Side → ℤ
edge_of r top = r.top_edge
edge_of r bottom = r.bottom_edge
edge_of r left = r.left_edge
edge_of r right = r.right_edge

abbrev pub is_zero : ℤ → Bool
is_zero (pos zero) = true
is_zero (pos (suc n)) = false
is_zero (negsuc n) = false

gap_if : Side → Side → ℤ → ℤ
gap_if top top gap = gap
gap_if bottom bottom gap = gap
gap_if left left gap = gap
gap_if right right gap = gap
gap_if _ _ gap = pos 0

set_style : Side → Side → ℤ → ℤ → Element → Element
set_style top ref edge gap e = record e { style_top = some (edge +ℤ gap_if ref bottom gap) }
set_style bottom ref edge gap e = record e {
  style_top = some (edge -ℤ e.height -ℤ gap_if ref top gap);
}
set_style left ref edge gap e = record e { style_left = some (edge +ℤ gap_if ref right gap) }
set_style right ref edge gap e = record e { style_left = some (edge -ℤ e.width) }

-- One round of the loop: `if (!edge) return` skips an unknown side, and also an edge at zero.
place_attribute : Rect → ℤ → Side → Element → Element
unfolding set_style gap_if edge_of
place_attribute rect gap attr e = elim (e.attribute attr) [
  | none ↦ e
  | some ref ↦ if is_zero (edge_of rect ref) then e else set_style attr ref (edge_of rect ref) gap e
]

pub position_relative_to : Rect → ℤ → Element → Element
unfolding place_attribute
position_relative_to rect gap e = place_attribute rect gap right (
    place_attribute rect gap left
      (place_attribute rect gap bottom (place_attribute rect gap top e)))

-- The keys of `HELP_PLACEMENTS`; any other text stands for the first one.
pub data Placement : Type 0 where
  below_right below_left above_right right_below : Placement

pub help_placements : Placement → Side → Option Side
help_placements below_right top = some bottom
help_placements below_right left = some left
help_placements below_left top = some bottom
help_placements below_left right = some right
help_placements above_right bottom = some top
help_placements above_right left = some left
help_placements right_below top = some top
help_placements right_below left = some right
help_placements _ _ = none

-- `showHelp` sets the attributes of a new popup and places it.
pub place_popup : Placement → Rect → ℤ → ℤ → Element
place_popup p rect width height = position_relative_to rect (pos 6) (record {
  width = width;
  height = height;
  attribute = help_placements p;
  style_top = none;
  style_left = none;
})
