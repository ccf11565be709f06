-- ===== src/Frontend/Welcome/Tests.antt =====
-- A page with one cookie of another name and one of an old version.
use tillerinobot.Prelude.{ℕ, ◌≡◌, refl, true, false, some, [], ◌∷◌}
use tillerinobot.Frontend.Welcome.{
  Cookie, Page, cookie_name, show_welcome_if_needed, is_current, live, join, set_cookie, strip,
  before_semicolon, group, match_here, skip_space, or_else, match_behind, match_cookie, same_text,
}

abbrev session : Cookie
session = record { name = b'i' ∷ b'd' ∷ []; value = b'7' ∷ []; expires = 10000 }

abbrev displayed : ℕ → Cookie
displayed version = record { name = cookie_name; value = version ∷ []; expires = 9000 }

abbrev page : ℕ → Page
page version = record { cookies = session ∷ displayed version ∷ []; dialog = some false }

shown_again : (show_welcome_if_needed 0 (page b'2')).dialog ≡ some true
unfolding show_welcome_if_needed is_current live join set_cookie strip before_semicolon group
    match_here skip_space or_else match_behind match_cookie same_text
shown_again = refl
