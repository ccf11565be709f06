-- ===== src/Chat/Event.antt =====
-- tillerinobot-model/src/main/java/org/tillerino/ppaddict/chat: GameChatEvent and its subclasses
-- PrivateMessage, PrivateAction, Joined and Sighted. The mutable meta data (log labels, timers) is
-- left out.
use tillerinobot.Prelude.{ℕ, Bool, true, false, String, if◌then◌else◌}

pub data Kind : Type 0 where
  private_message private_action : String → Kind
  joined sighted : Kind

pub record GameChatEvent : Type 0 where
  pub event_id : ℕ
  pub nick : String
  pub timestamp : ℕ
  pub kind : Kind

unfoldable pub kind_is_interactive : Kind → Bool
kind_is_interactive (private_message s) = true
kind_is_interactive (private_action s) = true
kind_is_interactive joined = false
kind_is_interactive sighted = false

unfoldable pub is_interactive : GameChatEvent → Bool
unfolding kind_is_interactive
is_interactive e = kind_is_interactive e.kind

is_joined : Kind → Bool
is_joined joined = true
is_joined _ = false

unfoldable pub get_priority : GameChatEvent → ℕ
unfolding is_joined
get_priority e = if is_interactive e then 3 else if is_joined e.kind then 2 else 1
