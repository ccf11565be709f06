-- ===== src/Frontend/Dialogs/Opening.antt =====
-- Which dialog opens where, and what the comment to edit is.
use tillerinobot.Prelude.{
  ℕ, ◌≡◌, ◌≢◌, refl, Bool, true, false, Option, none, some, List, [], ◌∷◌, ◌++◌, if◌then◌else◌,
  ◌==◌, arith, All, ap, ◌∙◌, sym, subst, inl, inr, Bool-cases,
}
use mathlib.Core.List.{append_assoc}
use tillerinobot.Prelude.Int.{pos}
use tillerinobot.Frontend.Position.{Rect, is_zero, position_relative_to}
use tillerinobot.Frontend.Position.Placing.{Below, WantsBelow, position_relative_to-Below}
use tillerinobot.Frontend.Dialogs.{
  closed, modal, Dialog, Button, at_id, show_at, on_click, Row, is_space, trim_start, trim_end,
  trim, cons_trimmed, in_value, comment_text, update_edit_dialog,
}

abbrev pub IsSpace : ℕ → Type 0
IsSpace c = is_space c ≡ true

abbrev pub BeginsTrimmed : List ℕ → Type 0
BeginsTrimmed [] = Unit
BeginsTrimmed (c ∷ s) = is_space c ≡ false

abbrev pub EndsTrimmed : List ℕ → Type 0
EndsTrimmed [] = Unit
EndsTrimmed (c ∷ []) = is_space c ≡ false
EndsTrimmed (c ∷ d ∷ s) = EndsTrimmed (d ∷ s)

-- A text without the white space around it.
pub record Trims (s t : List ℕ) : Type 0 where
  pub before : List ℕ
  pub after : List ℕ
  pub spaces_before : All IsSpace before
  pub spaces_after : All IsSpace after
  pub whole : s ≡ before ++ t ++ after
  pub begins : BeginsTrimmed t
  pub ends : EndsTrimmed t

-- The two halves of `Trims`.
abbrev Starts : List ℕ → List ℕ → Type 0
Starts s t = (a : List ℕ) × All IsSpace a × (s ≡ a ++ t) × BeginsTrimmed t

abbrev Stops : List ℕ → List ℕ → Type 0
Stops s t = (b : List ℕ) × All IsSpace b × (s ≡ t ++ b) × EndsTrimmed t

start_step :
    (c : ℕ) (s : List ℕ) (b : Bool)
    → is_space c ≡ b
    → Starts s (trim_start s)
    → Starts (c ∷ s) (if b then trim_start s else c ∷ s)
start_step c s true e (a, p, w, t) = (c ∷ a, (e, p), ap (◌∷◌ c) w, t)
start_step c s false e h = ([], tt, refl, e)

trim_start-Starts : (s : List ℕ) → Starts s (trim_start s)
unfolding trim_start
trim_start-Starts [] = ([], tt, refl, tt)
trim_start-Starts (c ∷ s) = start_step c s (is_space c) refl (trim_start-Starts s)

last_step :
    (c : ℕ) (s : List ℕ) (b : Bool)
    → is_space c ≡ b
    → Stops s []
    → Stops (c ∷ s) (if b then [] else c ∷ [])
last_step c s true e (b, p, w, t) = (c ∷ b, (e, p), ap (◌∷◌ c) w, tt)
last_step c s false e (b, p, w, t) = (b, p, ap (◌∷◌ c) w, e)

stop_step : (c : ℕ) (s t : List ℕ) → Stops s t → Stops (c ∷ s) (cons_trimmed c t)
stop_step c s [] h = last_step c s (is_space c) refl h
stop_step c s (d ∷ t) (b, p, w, e) = (b, p, ap (◌∷◌ c) w, e)

trim_end-Stops : (s : List ℕ) → Stops s (trim_end s)
unfolding trim_end
trim_end-Stops [] = ([], tt, refl, tt)
trim_end-Stops (c ∷ s) = stop_step c s (trim_end s) (trim_end-Stops s)

first_stays : (c : ℕ) (t : List ℕ) → is_space c ≡ false → BeginsTrimmed (cons_trimmed c t)
first_stays c [] h = ground (arith, h)
first_stays c (d ∷ t) h = h

trim_end-BeginsTrimmed : (s : List ℕ) → BeginsTrimmed s → BeginsTrimmed (trim_end s)
unfolding trim_end
trim_end-BeginsTrimmed [] h = tt
trim_end-BeginsTrimmed (c ∷ s) h = first_stays c (trim_end s) h

trim-Trims : (s : List ℕ) → Trims s (trim s)
unfolding trim
trim-Trims s =
    let (a, p, w, t) = trim_start-Starts s in
    let (b, q, v, e) = trim_end-Stops (trim_start s) in
    record {
      before = a;
      after = b;
      spaces_before = p;
      spaces_after = q;
      whole = w ∙ ap (◌++◌ a) v ∙ sym (append_assoc a (trim s) b);
      begins = trim_end-BeginsTrimmed (trim_start s) t;
      ends = e;
    }

comment_text-Trims : (text : List ℕ) → Trims text (comment_text (some (some text)))
unfolding comment_text
comment_text-Trims text = trim-Trims text

-- The dialog to edit a comment shows the beatmap and mods of the row, empty where it has none, and
-- its comment without exactly the white space around it.
pub update_edit_dialog_lem :
    (row : Row) (text : List ℕ)
    → row.comments ≡ some (some text)
    → Trims text (update_edit_dialog row).edit_comment
      × ((update_edit_dialog row).edit_beatmap_id ≡ in_value row.beatmap_id)
      × ((update_edit_dialog row).edit_mods ≡ in_value row.mods)
unfolding update_edit_dialog
update_edit_dialog_lem row text e =
    (subst (Trims text) (sym (ap comment_text e)) (comment_text-Trims text), refl, refl)

unfoldable pub find_dialog : ℕ → List Dialog → Option Dialog
find_dialog n [] = none
find_dialog n (d ∷ ds) = if d.id == n then some d else find_dialog n ds

show_at_lem :
    (r : Rect) (d : Dialog)
    → d.mode ≡ closed
    → show_at r d
      ≡ some (record d { mode = modal; element = position_relative_to r (pos 0) d.element })
unfolding show_at
show_at_lem r d h = rw h

of_some : {d e : Dialog} → some d ≡ some e → d ≡ e
of_some h = cc h

equal_of : {a b : ℕ} → (a == b) ≡ true → a ≡ b
equal_of h = ground (arith, h)

find_dialog-id : (n : ℕ) (ds : List Dialog) (d : Dialog) → find_dialog n ds ≡ some d → d.id ≡ n
unfolding find_dialog
find_dialog-id n [] d h = cc h
find_dialog-id n (x ∷ ds) d h = elim (Bool-cases (x.id == n)) [
  | inl t ↦ ap (λ (q : Dialog). q.id) (sym (of_some (rw t at h))) ∙ equal_of t
  | inr t ↦ find_dialog-id n ds d (rw t at h)
]

-- What `at_id` leaves when it goes through.
abbrev Updated : ℕ → Dialog → List Dialog → Option (List Dialog) → Type 0
Updated n d' ds r =
    (ds' : List Dialog) × (r ≡ some ds')
    × (find_dialog n ds' ≡ some d')
    × ((m : ℕ) → m ≢ n → find_dialog m ds' ≡ find_dialog m ds)

at_id-Updated :
    (n : ℕ) (f : Dialog → Option Dialog) (ds : List Dialog) (d d' : Dialog)
    → find_dialog n ds ≡ some d
    → f d ≡ some d'
    → d'.id ≡ n
    → Updated n d' ds (at_id n f ds)
unfolding at_id find_dialog
at_id-Updated n f [] d d' h e i = cc h
at_id-Updated n f (x ∷ ds) d d' h e i = elim (Bool-cases (x.id == n)) [
  | inl t ↦ (
    d' ∷ ds,
    rw (t, ap f (of_some (rw t at h)) ∙ e),
    ground (arith, i),
    λ m k. ground (arith, i, t, k),
  )
  | inr t ↦
      (let (ds', a, b, c) = at_id-Updated n f ds d d' (rw t at h) e i in
        (x ∷ ds', rw (t, a), rw (t, b), λ m k. ground (arith, c m k)))
]

-- A click on a button opens the dialog that it names and puts it at the lower left corner of the
-- button, if that dialog is there and closed, its attributes say so and neither edge of the button
-- is at zero; every other dialog stays as it is.
pub on_click_lem :
    (btn : Button) (n : ℕ) (ds : List Dialog) (d : Dialog)
    → btn.command_for ≡ some n
    → find_dialog n ds ≡ some d
    → d.mode ≡ closed
    → WantsBelow d.element
    → is_zero (btn.rect).bottom_edge ≡ false
    → is_zero (btn.rect).left_edge ≡ false
    → (ds' : List Dialog) × (d' : Dialog) × (on_click (some btn) ds ≡ some ds')
      × (find_dialog n ds' ≡ some d')
      × (d'.mode ≡ modal)
      × Below btn.rect d'.element
      × ((m : ℕ) → m ≢ n → find_dialog m ds' ≡ find_dialog m ds)
unfolding on_click
on_click_lem btn n ds d c h k w x y =
    let opened : Dialog = record d {
      mode = modal;
      element = position_relative_to btn.rect (pos 0) d.element;
    } in
    let (ds', a, b, others) =
      at_id-Updated n (show_at btn.rect) ds d opened h (show_at_lem btn.rect d k)
        (find_dialog-id n ds d h) in
    (ds', opened, rw (c, a), b, refl, position_relative_to-Below btn.rect d.element w x y, others)
