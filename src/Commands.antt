-- ===== src/Commands.antt =====
-- tillerinobot/src/main/java/tillerino/tillerinobot/CommandHandler.java. A handler reads and changes
-- a state of any kind (the database, the user's data), and ends in a response, in null, or in an
-- exception. Texts are lists of code points, and case is that of ASCII.
-- The texts of a language and the edit distance of the library are parameters.
pub mod Choices
pub mod Shorthand
pub mod Finding
pub mod Options
mod Tests
use tillerinobot.Prelude.{
  ℕ, ◌+◌, Bool, true, false, ◌&&◌, Option, none, some, List, [], ◌∷◌, ◌++◌, map, String,
  if◌then◌else◌, leb, ltb, ◌==◌,
}
use tillerinobot.Exceptions.{Exception, user_exception}
use tillerinobot.Chat.Response.{Response}

abbrev pub Text : Type 0
Text = List ℕ

pub data Handled : Type 0 where
  not_handled : Handled
  response : Response → Handled
  throws : Exception → Handled

abbrev pub to_lower : ℕ → ℕ
to_lower c = if leb b'A' c && leb c b'Z' then c + 32 else c

-- The rest behind a prefix in either case.
pub strip_prefix : Text → Text → Option Text
strip_prefix [] s = some s
strip_prefix (p ∷ ps) [] = none
strip_prefix (p ∷ ps) (c ∷ s) =
    let rest = strip_prefix ps s in if to_lower c == to_lower p then rest else none

-- The text before the first space and the one behind it.
pub split_space : Text → Option (Text × Text)
split_space [] = none
split_space (c ∷ s) =
    let more = split_space s in
    if c == b' '
    then some ([], s)
    else elim more [ none ↦ none | some (before, behind) ↦ some (c ∷ before, behind) ]

abbrev pub behind_alias : ℕ → Text → Option Text
behind_alias a [] = none
behind_alias a (c ∷ []) = none
behind_alias a (c ∷ d ∷ s) = if to_lower c == a && (d == b' ') then some s else none

abbrev pub is_alias : ℕ → Text → Bool
is_alias a [] = false
is_alias a (c ∷ []) = to_lower c == a
is_alias a (c ∷ d ∷ s) = false

module _ {ℓ} (S : Type ℓ) where
  pub record CommandHandler : Type ℓ where
    pub handle : Text → S → Handled × S
    pub choices : Text

  unfoldable pub or_next : (S → Handled × S) → Handled × S → Handled × S
  or_next next (not_handled, s) = next s
  or_next next (response r, s) = (response r, s)
  or_next next (throws e, s) = (throws e, s)

  pub or : CommandHandler → CommandHandler → CommandHandler
  or me next = record {
    handle = λ command s. or_next (next.handle command) (me.handle command s);
    choices = me.choices ++ b'|' ∷ next.choices;
  }

  abbrev pub in_parentheses : Text → Text
  in_parentheses [] = []
  in_parentheses (c ∷ t) = b'(' ∷ c ∷ t ++ b')' ∷ []

  -- What `handling` makes of the underlying handler's result.
  pub or_refuse : String → Handled × S → Handled × S
  or_refuse message (not_handled, s) = (throws (user_exception message), s)
  or_refuse message (response r, s) = (response r, s)
  or_refuse message (throws e, s) = (throws e, s)

  abbrev pub if_stripped : Option Text → (Text → S → Handled × S) → S → Handled × S
  if_stripped none f s = (not_handled, s)
  if_stripped (some rest) f s = f rest s

  pub handling : (Text → Text → String) → Text → CommandHandler → CommandHandler
  handling invalid_choice start underlying =
      let choices = start ++ in_parentheses underlying.choices in
      record {
        handle = λ command.
            if_stripped (strip_prefix start command)
              (λ rest s. or_refuse (invalid_choice command choices) (underlying.handle rest s));
        choices = choices;
      }

  pub always_handling : Text → (Text → S → Handled × S) → CommandHandler
  always_handling start underlying = record {
    handle = λ command. if_stripped (strip_prefix start command) underlying;
    choices = start;
  }

  -- `WithShorthand`, for a command of at least one character.
  module _ (distance : Text → Text → ℕ) (handle_argument : Text → Text → S → Handled × S) where
    pub behind_name : Text → Text → Option (Text × Text) → S → Handled × S
    behind_name command original none s = (not_handled, s)
    behind_name command original (some ([], behind)) s = (not_handled, s)
    behind_name command original (some (c ∷ before, behind)) s =
        if leb (distance (map to_lower (c ∷ before)) command) 2
        then handle_argument original behind s
        else (not_handled, s)

    pub with_shorthand : ℕ → Text → Text → S → Handled × S
    with_shorthand a name original s =
        if is_alias a original
        then handle_argument original [] s
        else if leb (distance (map to_lower original) (a ∷ name)) 2
        then handle_argument original [] s
        else elim (behind_alias a original) [
          | some argument ↦ handle_argument original argument s
          | none ↦ behind_name (a ∷ name) original (split_space original) s
        ]
