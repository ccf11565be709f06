-- ===== src/Frontend/Position/Placing.antt =====
-- Where a help popup comes to stand.
use tillerinobot.Prelude.{◌≡◌, true, false, none, some, arith}
use tillerinobot.Prelude.Int.{ℤ, pos, ◌+ℤ◌, ◌-ℤ◌}
use tillerinobot.Frontend.Position.{
  Side, top, bottom, left, right, Rect, Element, edge_of, is_zero, position_relative_to, Placement,
  below_right, below_left, above_right, right_below, help_placements, place_popup,
}

-- The two coordinates that a placement asks for.
abbrev pub Placed : Placement → Rect → ℤ → ℤ → Element → Type 0
Placed below_right r w h e =
    (e.style_top ≡ some (r.bottom_edge +ℤ pos 6)) × (e.style_left ≡ some (r.left_edge +ℤ pos 0))
Placed below_left r w h e =
    (e.style_top ≡ some (r.bottom_edge +ℤ pos 6)) × (e.style_left ≡ some (r.right_edge -ℤ w))
Placed above_right r w h e =
    (e.style_top ≡ some (r.top_edge -ℤ h -ℤ pos 6)) × (e.style_left ≡ some (r.left_edge +ℤ pos 0))
Placed right_below r w h e =
    (e.style_top ≡ some (r.top_edge +ℤ pos 0)) × (e.style_left ≡ some (r.right_edge +ℤ pos 6))

-- A popup stands where its placement says, six pixels from the anchor, if none of the anchor's
-- edges is at zero.
pub place_popup-Placed :
    (p : Placement) (r : Rect) (w h : ℤ)
    → ((s : Side) → is_zero (edge_of r s) ≡ false)
    → Placed p r w h (place_popup p r w h)
unfolding place_popup position_relative_to help_placements
place_popup-Placed below_right r w h n = ground (arith, n bottom, n left)
place_popup-Placed below_left r w h n = ground (arith, n bottom, n right)
place_popup-Placed above_right r w h n = ground (arith, n top, n left)
place_popup-Placed right_below r w h n = ground (arith, n top, n right)

-- A popup below or above an anchor at the left edge of the window gets no horizontal position, and
-- one beside an anchor at the upper edge no vertical one: zero counts as no edge.
pub place_popup_zero :
    (r : Rect) (w h : ℤ)
    → (is_zero r.left_edge ≡ true
        → ((place_popup below_right r w h).style_left ≡ none)
          × ((place_popup above_right r w h).style_left ≡ none))
      × (is_zero r.top_edge ≡ true → (place_popup right_below r w h).style_top ≡ none)
unfolding place_popup position_relative_to help_placements
place_popup_zero r w h = (λ z. (ground arith, ground arith), λ z. ground arith)

-- At the lower left corner of a rectangle.
abbrev pub Below : Rect → Element → Type 0
Below r e =
    (e.style_top ≡ some (r.bottom_edge +ℤ pos 0)) × (e.style_left ≡ some (r.left_edge +ℤ pos 0))

-- The attributes of an element that is to stand there.
abbrev pub WantsBelow : Element → Type 0
WantsBelow e =
    (e.attribute top ≡ some bottom)
    × (e.attribute left ≡ some left)
    × (e.attribute bottom ≡ none)
    × (e.attribute right ≡ none)

pub position_relative_to-Below :
    (r : Rect) (e : Element)
    → WantsBelow e
    → is_zero r.bottom_edge ≡ false
    → is_zero r.left_edge ≡ false
    → Below r (position_relative_to r (pos 0) e)
unfolding position_relative_to
position_relative_to-Below r e w x y = ground (arith, w, x, y)
