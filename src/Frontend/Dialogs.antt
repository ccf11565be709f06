-- ===== src/Frontend/Dialogs.antt =====
-- The modal dialogs of code.js: the listener that opens them, `updateMoreDialogLinks` and
-- `updateEditDialog`. Elements are found by their id, a number; texts are lists of code points, and
-- white space is that of ASCII. What throws is `none`.
pub mod Opening
mod Tests
use tillerinobot.Prelude.{
  ℕ, Bool, true, false, ◌&&◌, ◌||◌, Option, none, some, List, [], ◌∷◌, ◌++◌, if◌then◌else◌, leb,
  ◌==◌,
}
use tillerinobot.Prelude.Int.{ℤ, pos}
use tillerinobot.Frontend.Position.{Rect, Element, position_relative_to}

pub data Mode : Type 0 where
  closed modeless modal : Mode

pub record Dialog : Type 0 where
  pub id : ℕ
  pub mode : Mode
  pub element : Element

-- A button with `command="show-modal"`.
pub record Button : Type 0 where
  pub command_for : Option ℕ
  pub rect : Rect

-- `getElementById`, with what is done to the dialog, `none` if it is missing or that fails.
pub at_id : ℕ → (Dialog → Option Dialog) → List Dialog → Option (List Dialog)
at_id n f [] = none
at_id n f (d ∷ ds) =
    let rest = at_id n f ds in
    if d.id == n
    then (elim (f d) [ none ↦ none | some d' ↦ some (d' ∷ ds) ])
    else elim rest [ none ↦ none | some ds' ↦ some (d ∷ ds') ]

-- `showModal()`: a dialog that is open already stays open if it is modal, and else it throws.
abbrev pub show_modal : Dialog → Option Dialog
show_modal d = elim d.mode [
  | closed ↦ some (record d { mode = modal })
  | modal ↦ some d
  | modeless ↦ none
]

-- `dialog.showModal(); positionRelativeTo(dialog, btn)`.
pub show_at : Rect → Dialog → Option Dialog
show_at rect d = elim (show_modal d) [
  | none ↦ none
  | some d' ↦ some (record d' { element = position_relative_to rect (pos 0) d'.element })
]

-- The listener: `e.target.closest(…)` is the button around the target, if there is any. An empty
-- `commandfor` counts as none.
pub on_click : Option Button → List Dialog → Option (List Dialog)
on_click none ds = some ds
on_click (some btn) ds = elim btn.command_for [
  | none ↦ some ds
  | some target ↦ at_id target (show_at btn.rect) ds
]

pub record Row : Type 0 where
  pub beatmap_id : Option (List ℕ)
  pub beatmap_set_id : Option (List ℕ)
  pub mods : Option (List ℕ)
  -- the element of class `comments`, and the text of its first child
  pub comments : Option (Option (List ℕ))

pub record MoreDialog : Type 0 where
  pub beatmap_link : List ℕ
  pub set_link : List ℕ

pub record EditDialog : Type 0 where
  pub edit_beatmap_id : List ℕ
  pub edit_mods : List ℕ
  pub edit_comment : List ℕ

-- An attribute in a string concatenation, and as the value of an input.
abbrev in_text : Option (List ℕ) → List ℕ
in_text none = b'n' ∷ b'u' ∷ b'l' ∷ b'l' ∷ []
in_text (some s) = s

abbrev pub in_value : Option (List ℕ) → List ℕ
in_value none = []
in_value (some s) = s

pub update_more_dialog_links : Row → MoreDialog
update_more_dialog_links row = record {
  beatmap_link = b'?' ∷ b'b' ∷ b'=' ∷ in_text row.beatmap_id;
  set_link = b'?' ∷ b's' ∷ b'=' ∷ in_text row.beatmap_set_id;
}

abbrev pub is_space : ℕ → Bool
is_space c = c == 32 || (leb 9 c && leb c 13)

pub trim_start : List ℕ → List ℕ
trim_start [] = []
trim_start (c ∷ s) = if is_space c then trim_start s else c ∷ s

abbrev pub cons_trimmed : ℕ → List ℕ → List ℕ
cons_trimmed c [] = if is_space c then [] else c ∷ []
cons_trimmed c (d ∷ s) = c ∷ d ∷ s

pub trim_end : List ℕ → List ℕ
trim_end [] = []
trim_end (c ∷ s) = cons_trimmed c (trim_end s)

pub trim : List ℕ → List ℕ
trim s = trim_end (trim_start s)

-- `comment && comment.firstChild ? comment.firstChild.textContent.trim() : ''`.
pub comment_text : Option (Option (List ℕ)) → List ℕ
comment_text (some (some t)) = trim t
comment_text _ = []

pub update_edit_dialog : Row → EditDialog
update_edit_dialog row = record {
  edit_beatmap_id = in_value row.beatmap_id;
  edit_mods = in_value row.mods;
  edit_comment = comment_text row.comments;
}
