-- ===== src/Chat/Preprocessor/Locks.antt =====
-- What one event does to the locks of all users.
use tillerinobot.Prelude.{
  ℕ, ◌≡◌, ◌&&◌, List, [], ◌∷◌, ◌++◌, String, if◌then◌else◌, arith, str_eq, eq_iff,
}
use tillerinobot.Chat.Bouncer.{get, try_enter, update_if_present}
use tillerinobot.Chat.Bouncer.Runs.{holder}
use tillerinobot.Chat.Event.{GameChatEvent, is_interactive}
use tillerinobot.Chat.Preprocessor.{Preprocessor, on_event}

-- The ids of a user's messages and actions.
abbrev pub ids : String → List GameChatEvent → List ℕ
ids nick [] = []
ids nick (e ∷ es) =
    if is_interactive e && str_eq nick e.nick then e.event_id ∷ ids nick es else ids nick es

-- What an event adds to an empty queue is what it adds to the locks.
pub on_event-holder :
    (nick : String) (e : GameChatEvent) (now : ℕ) (s : Preprocessor)
    → s.queue ≡ []
    → ids nick (on_event e now s).queue ++ holder (get nick s.bouncer)
      ≡ holder (get nick (on_event e now s).bouncer)
unfolding on_event get try_enter update_if_present
on_event-holder nick e now s h =
    ground (arith, h, eq_iff nick e.nick, eq_iff e.nick e.nick, eq_iff e.nick nick)
