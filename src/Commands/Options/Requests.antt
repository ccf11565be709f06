-- ===== src/Commands/Options/Requests.antt =====
-- What is read from the text of a command, and how values are written: parseBoolean of
-- BooleanOptionHandler.java, and the first lines of `handle` of OptionsHandler.java.
use tillerinobot.Bot.Texts.{command_of as trim}
use tillerinobot.Prelude.{
  Bool, true, false, ◌||◌, Option, none, some, [], map, if◌then◌else◌, codes,
}
use tillerinobot.Commands.{Text, to_lower, strip_prefix, split_space}
use tillerinobot.Users.{same_text}

-- `BooleanOptionHandler.parseBoolean`; `none` is the UserException.
unfoldable pub parse_boolean : Text → Option Bool
parse_boolean original =
    let s = map to_lower original in
    if same_text s (codes "on")
      || same_text s (codes "true")
      || same_text s (codes "yes")
      || same_text s (codes "1")
    then some true
    else if same_text s (codes "off")
        || same_text s (codes "false")
        || same_text s (codes "no")
        || same_text s (codes "0")
    then some false
    else none

abbrev pub on_off : Bool → Text
on_off b = if b then codes "ON" else codes "OFF"

abbrev pub or_dash : Option Text → Text
or_dash none = codes "-"
or_dash (some t) = t

abbrev pub is_short_name : Option Text → Text → Bool
is_short_name none option = false
is_short_name (some name) option = same_text name option

-- `none` if no command to set or show an option stands at the start.
pub data Request : Type 0 where
  set_to : Text → Text → Request
  show : Text → Request

abbrev pub set_request : Text → Option (Text × Text) → Request
set_request command none = set_to (map to_lower command) []
set_request command (some (option, value)) = set_to (map to_lower option) value

unfoldable pub request_of : Text → Option Request
request_of command = elim (strip_prefix (codes "set") command) [
  | some rest ↦ some (set_request (trim rest) (split_space (trim rest)))
  | none ↦ elim (strip_prefix (codes "show") command) [
    | some rest ↦ some (show (map to_lower (trim rest)))
    | none ↦ elim (strip_prefix (codes "view") command) [
      | some rest ↦ some (show (map to_lower (trim rest)))
      | none ↦ elim (strip_prefix (codes "get") command) [
        | some rest ↦ some (show (map to_lower (trim rest)))
        | none ↦ none
      ]
    ]
  ]
]
