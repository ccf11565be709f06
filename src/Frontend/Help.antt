-- ===== src/Frontend/Help.antt =====
-- The help popups of code.js: `closeAllHelp`, `outsideClick`, `showHelp` and `collectHelpAnchors`.
-- The page is what these functions read and write of it: its dialogs in document order, the
-- anchors that carry help, the row of filters, and the popups that show. Where a popup stands is
-- in Position.antt.

pub mod Showing
mod Tests
use tillerinobot.Prelude.{
  ℕ, Bool, true, false, not, ◌&&◌, ◌||◌, Option, none, some, List, [], ◌∷◌, ◌++◌, if◌then◌else◌,
  ◌==◌,
}

pub data DialogName : Type 0 where
  welcome settings : DialogName
  other : ℕ → DialogName

-- An element with `data-help-content`. It shows if its dialog is open or it is laid out
-- (`offsetParent`), and an element of the row of filters only while that row shows.
pub record Anchor : Type 0 where
  pub title : ℕ
  pub shows : Bool
  pub in_filter_row : Bool

pub record Dialog : Type 0 where
  pub name : DialogName
  pub is_open : Bool
  -- the dialog's own help, if it has any, and that of the elements in it
  pub own : Option Anchor
  pub inner : List Anchor

pub record Page : Type 0 where
  pub dialogs : List Dialog
  -- all elements with help in the body, but not in the filter row of a page without one
  pub body : List Anchor
  -- whether a style sheet has the rule `.filter-row`
  pub has_filter_rule : Bool
  -- whether there is such a row, and whether it is displayed
  pub has_filter_row : Bool
  pub filter_row_shown : Bool
  -- `_helpFiltersAutoOpened`
  pub auto_opened : Bool
  pub popups : List ℕ
  pub backdrops : ℕ

-- `modifyRule('.filter-row', 'display', …)`.
modify_filter_rule : Bool → Page → Page
modify_filter_rule shown p = if p.has_filter_rule then record p { filter_row_shown = shown } else p

abbrev is_named : DialogName → Dialog → Bool
is_named welcome d = elim d.name [ welcome ↦ true | settings ↦ false | other n ↦ false ]
is_named settings d = elim d.name [ welcome ↦ false | settings ↦ true | other n ↦ false ]
is_named (other n) d = elim d.name [ welcome ↦ false | settings ↦ false | other m ↦ m == n ]

-- `close()` of the dialog of that name, if it is open.
pub close : DialogName → List Dialog → List Dialog
close n [] = []
close n (d ∷ ds) =
    if is_named n d then record d { is_open = false } ∷ close n ds else d ∷ close n ds

hide_filters : Page → Page
unfolding modify_filter_rule
hide_filters p =
    if p.auto_opened then record (modify_filter_rule false p) { auto_opened = false } else p

pub close_all_help : Page → Page
unfolding hide_filters
close_all_help p =
    let q = hide_filters (record p { popups = []; backdrops = 0 }) in
    record q { dialogs = close welcome q.dialogs }

-- Where a click went: whether it was on a help trigger, a popup or the welcome dialog, and in which
-- open dialog, with whether it hit the dialog element itself.
pub record Click : Type 0 where
  pub on_help : Bool
  pub open_dialog : Option (DialogName × Bool)

-- A click on the dialog element itself is one on its backdrop.
after_click : Option (DialogName × Bool) → Page → Page
unfolding close_all_help
after_click (some (name, true)) p = close_all_help (record p { dialogs = close name p.dialogs })
after_click (some (name, false)) p = close_all_help p
after_click none p = let q = close_all_help p in record q { dialogs = close settings q.dialogs }

pub outside_click : Click → Page → Page
unfolding after_click
outside_click c p = if c.on_help then p else after_click c.open_dialog p

pub collect_help_anchors : Option Anchor → List Anchor → List Anchor
collect_help_anchors none found = found
collect_help_anchors (some root) found = root ∷ found

-- `document.querySelector('dialog[open]')`, with the anchors that are collected in it.
dialog_anchors : List Dialog → List Anchor
unfolding collect_help_anchors
dialog_anchors [] = []
dialog_anchors (d ∷ ds) =
    if d.is_open then collect_help_anchors d.own d.inner else dialog_anchors ds

-- The body is the container: its anchors, with the row of filters opened for them.
open_filters : Page → Page
unfolding modify_filter_rule
open_filters p =
    if p.has_filter_row && not p.filter_row_shown
    then record (modify_filter_rule true p) { auto_opened = true }
    else p

abbrev pub visible : Bool → Anchor → Bool
visible filters a = a.shows && (not a.in_filter_row || filters)

-- The loop over the anchors. The first popup brings the backdrop.
add_popups : List Anchor → Page → Page
add_popups [] p = p
add_popups (a ∷ rest) p = add_popups rest (
    if visible p.filter_row_shown a
    then record p {
      popups = p.popups ++ a.title ∷ [];
      backdrops = if p.backdrops == 0 then 1 else p.backdrops;
    }
    else p)

abbrev is_empty : List ℕ → Bool
is_empty [] = true
is_empty (x ∷ xs) = false

-- No popup came of the opened row.
undo_filters : Page → Page
unfolding modify_filter_rule
undo_filters p =
    if p.auto_opened && is_empty p.popups
    then record (modify_filter_rule false p) { auto_opened = false }
    else p

show_in : List Anchor → Page → Page
unfolding open_filters add_popups undo_filters collect_help_anchors
show_in [] p =
    let q = open_filters p in undo_filters (add_popups (collect_help_anchors none q.body) q)
show_in (a ∷ rest) p = undo_filters (add_popups (a ∷ rest) p)

pub show_help : Page → Page
unfolding close_all_help dialog_anchors show_in
show_help p = let q = close_all_help p in show_in (dialog_anchors q.dialogs) q
