-- ===== src/Bot/Texts.antt =====
-- IRCBot.java: what `processPrivateMessage` reads from the text of a message, the pattern for a hug and
-- the command behind an exclamation mark.
use tillerinobot.Prelude.{
  ℕ, Bool, true, false, not, ◌&&◌, ◌||◌, Option, none, some, List, [], ◌∷◌, if◌then◌else◌, leb,
  ◌==◌,
}
use tillerinobot.Commands.{to_lower, strip_prefix}

-- Java's `trim` takes off what is not above a space.
trim_start : List ℕ → List ℕ
trim_start [] = []
trim_start (c ∷ s) = if leb c b' ' then trim_start s else c ∷ s

cons_trimmed : ℕ → List ℕ → List ℕ
cons_trimmed c [] = if leb c b' ' then [] else c ∷ []
cons_trimmed c (d ∷ s) = c ∷ d ∷ s

trim_end : List ℕ → List ℕ
unfolding cons_trimmed
trim_end [] = []
trim_end (c ∷ s) = cons_trimmed c (trim_end s)

is_word : ℕ → Bool
is_word c =
    (leb b'a' (to_lower c) && leb (to_lower c) b'z') || (leb b'0' c && leb c b'9') || c == b'_'

at_boundary : List ℕ → Bool
unfolding is_word
at_boundary [] = true
at_boundary (c ∷ s) = not (is_word c)

-- `hugs?\b` behind "hug".
ends_hug : Option (List ℕ) → Bool
unfolding at_boundary
ends_hug none = false
ends_hug (some []) = true
ends_hug (some (c ∷ s)) = not (is_word c) || (to_lower c == b's' && at_boundary s)

-- `\bhugs?\b`, at the first place where it fits; whether a word character stands before.
unfoldable pub find_hug : Bool → List ℕ → Bool
unfolding ends_hug is_word at_boundary
find_hug after_word [] = false
find_hug after_word (c ∷ s) =
    (not after_word && ends_hug (strip_prefix (b'h' ∷ b'u' ∷ b'g' ∷ []) (c ∷ s)))
    || find_hug (is_word c) s

-- `substring(1).trim()`.
unfoldable pub command_of : List ℕ → List ℕ
unfolding trim_start trim_end cons_trimmed
command_of text = trim_end (trim_start text)
