-- ===== src/Frontend/Welcome/Once.antt =====
-- When `showWelcomeIfNeeded` opens the dialog.
use tillerinobot.Prelude.{
  ℕ, ◌<◌, ◌≡◌, refl, Bool, true, false, Option, none, some, List, [], ◌∷◌, if◌then◌else◌, ltb,
  arith, All, ap, ◌∙◌, ◌⊎◌, inl, inr, sym,
}
use tillerinobot.Frontend.Welcome.{
  Cookie, Page, same_text, cookie_name, welcome_version, live, join, set_cookie, is_current, expiry,
  show_welcome_if_needed, match_cookie,
}
use tillerinobot.Frontend.Welcome.Search.{
  IsNameChar, IsValueChar, IsCookie, lookup, match_cookie-join, cookie_name_chars,
}

if-All :
    (b : Bool) (cs ds : List Cookie)
    → All IsCookie cs
    → All IsCookie ds
    → All IsCookie (if b then cs else ds)
if-All true cs ds p q = p
if-All false cs ds p q = q

live-IsCookie : (now : ℕ) (cs : List Cookie) → All IsCookie cs → All IsCookie (live now cs)
unfolding live
live-IsCookie now [] p = tt
live-IsCookie now (c ∷ cs) p =
    let rest = live-IsCookie now cs p.1 in if-All (ltb now c.expires) _ _ (p.0, rest) rest

set_cookie-IsCookie :
    (c : Cookie) (cs : List Cookie) → IsCookie c → All IsCookie cs → All IsCookie (set_cookie c cs)
unfolding set_cookie
set_cookie-IsCookie c [] p q = (p, tt)
set_cookie-IsCookie c (d ∷ ds) p q =
    if-All (same_text c.name d.name) _ _ (p, q.1) (q.0, set_cookie-IsCookie c ds p q.1)

same_text_refl : (s : List ℕ) → same_text s s ≡ true
unfolding same_text
same_text_refl [] = refl
same_text_refl (c ∷ s) = ground (arith, same_text_refl s)

lookup-set_cookie :
    (now : ℕ) (c : Cookie) (cs : List Cookie)
    → now < c.expires
    → lookup c.name (live now (set_cookie c cs)) ≡ some c.value
unfolding lookup live set_cookie
lookup-set_cookie now c [] h = ground (arith, same_text_refl c.name)
lookup-set_cookie now c (d ∷ ds) h =
    ground (arith, same_text_refl c.name, lookup-set_cookie now c ds h)

abbrev pub welcome_cookie : ℕ → Cookie
welcome_cookie now = record { name = cookie_name; value = welcome_version; expires = expiry now }

-- What the page reads is whether the cookie is there.
shown_before :
    (now : ℕ) (cs : List Cookie)
    → All IsCookie cs
    → is_current (match_cookie (join (live now cs))) ≡ is_current (lookup cookie_name (live now cs))
shown_before now cs p = ap is_current (match_cookie-join (live now cs) (live-IsCookie now cs p))

current : is_current (some welcome_version) ≡ true
unfolding is_current
current = refl

-- Nothing happens if the page has the cookie of this version or no welcome dialog.
pub show_welcome_if_needed-unchanged :
    (now : ℕ) (p : Page)
    → All IsCookie p.cookies
    → (is_current (lookup cookie_name (live now p.cookies)) ≡ true) ⊎ (p.dialog ≡ none)
    → show_welcome_if_needed now p ≡ p
unfolding show_welcome_if_needed
show_welcome_if_needed-unchanged now p w (inl h) = rw (shown_before now p.cookies w ∙ h)
show_welcome_if_needed-unchanged now p w (inr h) = ground (arith, h)

welcome-IsCookie : All IsNameChar cookie_name × All IsValueChar welcome_version
welcome-IsCookie = (cookie_name_chars, omega arith)

fresh :
    (now : ℕ) (p : Page) (d : Bool)
    → is_current (match_cookie (join (live now p.cookies))) ≡ false
    → p.dialog ≡ some d
    → show_welcome_if_needed now p
      ≡ record { cookies = set_cookie (welcome_cookie now) p.cookies; dialog = some true }
unfolding show_welcome_if_needed
fresh now p d h e = rw (h, e)

abbrev pub revisited : Page → Option Bool → Page
revisited p dialog = record p { dialog = dialog }

-- Otherwise the dialog opens, and for 365 days, to the second, no later visit opens it again,
-- whatever has become of the dialog.
pub show_welcome_if_needed_lem :
    (now : ℕ) (p : Page) (d : Bool)
    → All IsCookie p.cookies
    → is_current (lookup cookie_name (live now p.cookies)) ≡ false
    → p.dialog ≡ some d
    → ((show_welcome_if_needed now p).dialog ≡ some true)
      × ((later : ℕ) (dialog : Option Bool)
          → later < expiry now
          → show_welcome_if_needed later (revisited (show_welcome_if_needed now p) dialog)
            ≡ revisited (show_welcome_if_needed now p) dialog)
show_welcome_if_needed_lem now p d w h e =
    let shown = fresh now p d (shown_before now p.cookies w ∙ h) e in
    (
      ap (λ q. q.dialog) shown,
      λ later dialog before.
          ap (λ q. show_welcome_if_needed later (revisited q dialog)) shown
          ∙ show_welcome_if_needed-unchanged later _
              (set_cookie-IsCookie (welcome_cookie now) p.cookies welcome-IsCookie w)
              (inl (
                ap is_current (lookup-set_cookie later (welcome_cookie now) p.cookies before)
                ∙ current))
          ∙ ap (λ q. revisited q dialog) (sym shown),
    )
