-- ===== src/Frontend/Welcome.antt =====
-- `showWelcomeIfNeeded` of code.js. Texts are lists of code points, white space is that of ASCII.
-- The cookies of the page are a list in the order of their creation; `document.cookie` reads as
-- the cookies that have not expired, and assigning to it replaces a cookie or adds one. The clock
-- is an argument, in milliseconds.
pub mod Search
pub mod Once
mod Tests
use tillerinobot.Prelude.{
  ℕ, ◌+◌, ◌*◌, ◌/◌, Bool, true, false, ◌&&◌, ◌||◌, Option, none, some, List, [], ◌∷◌, ◌++◌,
  if◌then◌else◌, ltb, leb, ◌==◌,
}

pub record Cookie : Type 0 where
  pub name : List ℕ
  pub value : List ℕ
  pub expires : ℕ

pub record Page : Type 0 where
  pub cookies : List Cookie
  -- whether the welcome dialog is open, `none` if there is none
  pub dialog : Option Bool

unfoldable pub same_text : List ℕ → List ℕ → Bool
same_text [] [] = true
same_text [] (d ∷ t) = false
same_text (c ∷ s) [] = false
same_text (c ∷ s) (d ∷ t) = c == d && same_text s t

abbrev pub cookie_name : List ℕ
cookie_name =
    b'w' ∷ b'e' ∷ b'l' ∷ b'c' ∷ b'o' ∷ b'm' ∷ b'e' ∷ b'D' ∷ b'i' ∷ b's' ∷ b'p' ∷ b'l' ∷ b'a' ∷ b'y'
    ∷ b'e' ∷ b'd' ∷ []

-- `WELCOME_VERSION`.
abbrev pub welcome_version : List ℕ
welcome_version = b'6' ∷ []

-- Reading `document.cookie`.
pub live : ℕ → List Cookie → List Cookie
live now [] = []
live now (c ∷ cs) = let rest = live now cs in if ltb now c.expires then c ∷ rest else rest

abbrev pub pair : Cookie → List ℕ
pair c = c.name ++ b'=' ∷ c.value

pub join : List Cookie → List ℕ
join [] = []
join (c ∷ []) = pair c
join (c ∷ d ∷ cs) = pair c ++ b';' ∷ b' ' ∷ join (d ∷ cs)

-- Assigning to `document.cookie`.
pub set_cookie : Cookie → List Cookie → List Cookie
unfolding same_text
set_cookie c [] = c ∷ []
set_cookie c (d ∷ ds) = if same_text c.name d.name then c ∷ ds else d ∷ set_cookie c ds

pub strip : List ℕ → List ℕ → Option (List ℕ)
strip [] s = some s
strip (p ∷ ps) [] = none
strip (p ∷ ps) (c ∷ s) = if c == p then strip ps s else none

-- `([^;]*)`.
pub before_semicolon : List ℕ → List ℕ
before_semicolon [] = []
before_semicolon (c ∷ s) = if c == b';' then [] else c ∷ before_semicolon s

pub group : Option (List ℕ) → Option (List ℕ)
group none = none
group (some t) = some (before_semicolon t)

-- `welcomeDisplayed=([^;]*)` at the beginning of a text.
pub match_here : List ℕ → Option (List ℕ)
match_here s = group (strip (cookie_name ++ b'=' ∷ []) s)

-- `\s*`.
pub skip_space : List ℕ → List ℕ
skip_space [] = []
skip_space (c ∷ s) = if c == 32 || leb 9 c && leb c 13 then skip_space s else c ∷ s

-- The first of two alternatives that matches.
pub or_else : Option (List ℕ) → Option (List ℕ) → Option (List ℕ)
or_else (some v) o = some v
or_else none o = o

-- The alternative with a semicolon, at the first place where it fits.
pub match_behind : List ℕ → Option (List ℕ)
match_behind [] = none
match_behind (c ∷ s) =
    let rest = match_behind s in
    if c == b';' then or_else (match_here (skip_space s)) rest else rest

-- `document.cookie.match(/(?:^|;\s*)welcomeDisplayed=([^;]*)/)`, the group.
pub match_cookie : List ℕ → Option (List ℕ)
match_cookie s = or_else (match_here s) (match_behind s)

-- `match && match[1] === WELCOME_VERSION`.
unfoldable pub is_current : Option (List ℕ) → Bool
unfolding same_text
is_current none = false
is_current (some v) = same_text v welcome_version

-- In 365 days, in whole seconds as `toUTCString` writes it.
abbrev pub expiry : ℕ → ℕ
expiry now = (now + 365 * 86400 * 1000) / 1000 * 1000

pub show_welcome_if_needed : ℕ → Page → Page
unfolding is_current
show_welcome_if_needed now p =
    if is_current (match_cookie (join (live now p.cookies))) then p else elim p.dialog [
      | none ↦ p
      | some d ↦ record {
        cookies =
            set_cookie
              (record { name = cookie_name; value = welcome_version; expires = expiry now })
              p.cookies;
        dialog = some true;
      }
    ]
