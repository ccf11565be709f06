-- ===== src/Frontend/Help/Showing.antt =====
-- Showing and dismissing the help.
use tillerinobot.Prelude.{
  ℕ, ◌≡◌, ◌≢◌, refl, Bool, true, false, Option, none, some, List, [], ◌∷◌, ◌++◌, if◌then◌else◌,
  ◌==◌, arith, ap, ◌∙◌, sym, Bool-cases, inl, inr, All, subst,
}
use mathlib.Core.Bool.{false≢true}
use mathlib.Core.List.{append_assoc, append-nil}
use tillerinobot.Frontend.Help.{
  DialogName, welcome, settings, other, Anchor, Dialog, Page, is_named, close, close_all_help,
  Click, after_click, outside_click, dialog_anchors, open_filters, visible, add_popups,
  undo_filters, show_in, show_help,
}

close_idempotent : (n : DialogName) (ds : List Dialog) → close n (close n ds) ≡ close n ds
unfolding close
close_idempotent n [] = refl
close_idempotent welcome (d ∷ ds) = ground (arith, close_idempotent welcome ds)
close_idempotent settings (d ∷ ds) = ground (arith, close_idempotent settings ds)
close_idempotent (other m) (d ∷ ds) = ground (arith, close_idempotent (other m) ds)

close_all_help-close_all_help : (p : Page) → close_all_help (close_all_help p) ≡ close_all_help p
unfolding close_all_help
close_all_help-close_all_help p = ground (arith, close_idempotent welcome p.dialogs)

close_all_help-add_popups :
    (bs : List Anchor) (p : Page) → close_all_help (add_popups bs p) ≡ close_all_help p
unfolding close_all_help add_popups
close_all_help-add_popups [] p = refl
close_all_help-add_popups (a ∷ bs) p = close_all_help-add_popups bs _ ∙ ground arith

close_all_help-undo : (p : Page) → close_all_help (undo_filters p) ≡ close_all_help p
unfolding close_all_help undo_filters
close_all_help-undo p = ground arith

close_all_help-open :
    (p : Page) → p.auto_opened ≡ false → close_all_help (open_filters p) ≡ close_all_help p
unfolding close_all_help open_filters
close_all_help-open p h = ground arith

close_all_help-auto : (p : Page) → (close_all_help p).auto_opened ≡ false
unfolding close_all_help
close_all_help-auto p = ground arith

close_all_help-show_in :
    (anchors : List Anchor) (p : Page)
    → p.auto_opened ≡ false
    → close_all_help (show_in anchors p) ≡ close_all_help p
unfolding show_in
close_all_help-show_in [] p h =
    close_all_help-undo (add_popups (open_filters p).body (open_filters p))
    ∙ close_all_help-add_popups (open_filters p).body (open_filters p)
    ∙ close_all_help-open p h
close_all_help-show_in (a ∷ rest) p h =
    close_all_help-undo (add_popups (a ∷ rest) p) ∙ close_all_help-add_popups (a ∷ rest) p

-- Dismissing the help takes back all that showing it did, the opened row of filters included: the
-- page is as if the help had been dismissed at once. So showing it twice shows the same.
pub close_all_help-show_help :
    (p : Page)
    → (close_all_help (show_help p) ≡ close_all_help p) × (show_help (show_help p) ≡ show_help p)
unfolding show_help
close_all_help-show_help p =
    let back : close_all_help (show_help p) ≡ close_all_help p =
      close_all_help-show_in (dialog_anchors (close_all_help p).dialogs) (close_all_help p)
        (close_all_help-auto p)
      ∙ close_all_help-close_all_help p in
    (back, ap (λ q. show_in (dialog_anchors q.dialogs) q) back)

titles : Bool → List Anchor → List ℕ
titles filters [] = []
titles filters (a ∷ rest) =
    if visible filters a then a.title ∷ titles filters rest else titles filters rest

abbrev backdrops_for : List ℕ → ℕ
backdrops_for [] = 0
backdrops_for (x ∷ xs) = 1

one_backdrop :
    (xs : List ℕ) (t n : ℕ)
    → n ≡ backdrops_for xs
    → (if n == 0 then 1 else n) ≡ backdrops_for (xs ++ t ∷ [])
one_backdrop [] t n h = ground arith
one_backdrop (x ∷ xs) t n h = ground arith

add_popups-popups :
    (bs : List Anchor) (p : Page)
    → p.backdrops ≡ backdrops_for p.popups
    → ((add_popups bs p).popups ≡ p.popups ++ titles p.filter_row_shown bs)
      × ((add_popups bs p).backdrops ≡ backdrops_for (add_popups bs p).popups)
unfolding add_popups titles
add_popups-popups [] p h = (sym (append-nil p.popups), h)
add_popups-popups (a ∷ bs) p h = elim (Bool-cases (visible p.filter_row_shown a)) [
  | inl v ↦
      let q : Page = record p {
        popups = p.popups ++ a.title ∷ [];
        backdrops = if p.backdrops == 0 then 1 else p.backdrops;
      } in
      let (t, b) = add_popups-popups bs q (one_backdrop p.popups a.title p.backdrops h) in
      rw (v, add_popups, titles) (t ∙ append_assoc p.popups (a.title ∷ []) _, b)
  | inr v ↦ rw (v, add_popups, titles) (add_popups-popups bs p h)
]

-- Some popup shows if the row of filters is open on behalf of the help, and one backdrop lies
-- behind the popups if there are any.
abbrev pub IsTidy : Page → Type 0
IsTidy p = (p.backdrops ≡ backdrops_for p.popups) × (p.auto_opened ≡ true → p.popups ≢ [])

undo_filters-IsTidy : (p : Page) → p.backdrops ≡ backdrops_for p.popups → IsTidy (undo_filters p)
unfolding undo_filters
undo_filters-IsTidy p h = (ground arith, λ a. ground arith)

close_all_help-empty :
    (p : Page) → (close_all_help p).backdrops ≡ backdrops_for (close_all_help p).popups
unfolding close_all_help
close_all_help-empty p = ground arith

open_filters-same :
    (p : Page)
    → p.backdrops ≡ backdrops_for p.popups
    → (open_filters p).backdrops ≡ backdrops_for (open_filters p).popups
unfolding open_filters
open_filters-same p h = ground arith

show_in-IsTidy :
    (anchors : List Anchor) (p : Page)
    → p.backdrops ≡ backdrops_for p.popups
    → IsTidy (show_in anchors p)
unfolding show_in
show_in-IsTidy [] p h =
    undo_filters-IsTidy (add_popups (open_filters p).body (open_filters p))
      (add_popups-popups (open_filters p).body (open_filters p) (open_filters-same p h)).1
show_in-IsTidy (a ∷ rest) p h =
    undo_filters-IsTidy (add_popups (a ∷ rest) p) (add_popups-popups (a ∷ rest) p h).1

-- Whatever the page: behind `showHelp` there is one backdrop if any popup shows and none
-- otherwise, and the row of filters stays opened for the help only if a popup shows.
pub show_help-IsTidy : (p : Page) → IsTidy (show_help p)
unfolding show_help
show_help-IsTidy p =
    show_in-IsTidy (dialog_anchors (close_all_help p).dialogs) (close_all_help p)
      (close_all_help-empty p)

abbrev pub AllClosed : DialogName → List Dialog → Type 0
AllClosed n = All (λ (d : Dialog). is_named n d ≡ true → d.is_open ≡ false)

close-AllClosed : (n : DialogName) (ds : List Dialog) → AllClosed n (close n ds)
unfolding close
close-AllClosed n [] = tt
close-AllClosed n (d ∷ ds) = elim (Bool-cases (is_named n d)) [
  | inl e ↦ rw (e, close) (λ _. refl, close-AllClosed n ds)
  | inr e ↦ rw (e, close) (λ t. absurd (false≢true (sym e ∙ t)), close-AllClosed n ds)
]

close-keeps : (n m : DialogName) (ds : List Dialog) → AllClosed n ds → AllClosed n (close m ds)
unfolding close
close-keeps n m [] h = tt
close-keeps n m (d ∷ ds) h = elim (Bool-cases (is_named m d)) [
  | inl e ↦ rw (e, close) (λ _. refl, close-keeps n m ds h.1)
  | inr e ↦ rw (e, close) (h.0, close-keeps n m ds h.1)
]

close_all_help-dialogs : (p : Page) → (close_all_help p).dialogs ≡ close welcome p.dialogs
unfolding close_all_help
close_all_help-dialogs p = ground arith

close_all_help-popups : (p : Page) → (close_all_help p).popups ≡ []
unfolding close_all_help
close_all_help-popups p = ground arith

abbrev ClosedBy : Option (DialogName × Bool) → List Dialog → Type 0
ClosedBy none ds = AllClosed settings ds
ClosedBy (some (n, true)) ds = AllClosed n ds
ClosedBy (some (n, false)) ds = Unit {0}

after_click-closed :
    (o : Option (DialogName × Bool)) (p : Page)
    → ((after_click o p).popups ≡ [])
      × AllClosed welcome (after_click o p).dialogs
      × ClosedBy o (after_click o p).dialogs
unfolding after_click
after_click-closed none p = rw (close_all_help-dialogs p) (
  close_all_help-popups p,
  close-keeps welcome settings _ (close-AllClosed welcome p.dialogs),
  close-AllClosed settings _,
)
after_click-closed (some (n, true)) p =
    let q : Page = record p { dialogs = close n p.dialogs } in
    rw (close_all_help-dialogs q) (
      close_all_help-popups q,
      close-AllClosed welcome _,
      close-keeps n welcome _ (close-AllClosed n p.dialogs),
    )
after_click-closed (some (n, false)) p =
    rw (close_all_help-dialogs p) (close_all_help-popups p, close-AllClosed welcome p.dialogs, tt)

-- A click on the help changes nothing. Any other click leaves no popup and closes the welcome
-- dialog; outside of any open dialog it closes the settings too, and on the backdrop of a dialog
-- that dialog.
pub outside_click_lem :
    (c : Click) (p : Page)
    → (c.on_help ≡ true → outside_click c p ≡ p)
      × (c.on_help ≡ false
          → ((outside_click c p).popups ≡ [])
            × AllClosed welcome (outside_click c p).dialogs
            × (c.open_dialog ≡ none → AllClosed settings (outside_click c p).dialogs)
            × ((n : DialogName)
                → c.open_dialog ≡ some (n, true)
                → AllClosed n (outside_click c p).dialogs))
unfolding outside_click
outside_click_lem c p = (
  λ h. rw (h, outside_click),
  λ h.
      let (none_shown, welcome_closed, closed) = after_click-closed c.open_dialog p in
      rw (h, outside_click)
        (
          none_shown,
          welcome_closed,
          λ e. subst (λ o. ClosedBy o (after_click c.open_dialog p).dialogs) e closed,
          λ n e. subst (λ o. ClosedBy o (after_click c.open_dialog p).dialogs) e closed,
        ),
)
