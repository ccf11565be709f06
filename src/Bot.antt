-- ===== src/Bot.antt =====
-- tillerinobot/src/main/java/tillerino/tillerinobot/IRCBot.java. A method is a function on the state
-- of the bot that returns or throws. The state is that of the rate limiter, the queue of responses,
-- the newest first, and a state of any kind for all that the bot calls: the users' data, the
-- resolver of names, the API and the command handlers, which are the fields of `Services` and
-- `Language`. Logging and timing are left out. The clock is an argument.
pub mod Texts
pub mod Messages
pub mod Events
pub mod Sample
mod Tests
use tillerinobot.Prelude.{
  ℕ, ◌+◌, ◌*◌, Bool, true, false, not, ◌&&◌, ◌||◌, Option, none, some, List, [], ◌∷◌, map, String,
  if◌then◌else◌, ltb, leb, ◌==◌,
}
use tillerinobot.Prelude.Int.{ℤ, pos, negsuc, ltb_ℤ}
use tillerinobot.Exceptions.{
  Exception, interrupted, execution, user_exception, maintenance, sql_recoverable,
  service_unavailable, is_timeout, is_external, is_io,
}
use tillerinobot.Limiter.{Limiter}
use tillerinobot.Commands.{CommandHandler}
use tillerinobot.Chat.Response.{Response, message, no_response}
use tillerinobot.Chat.Event.{GameChatEvent}

pub data Outcome {ℓ} (A : Type ℓ) : Type ℓ where
  ok : A → Outcome A
  throws : Exception → Outcome A

pub record ApiUser : Type 0 where
  pub user_id : ℕ
  pub user_name : List ℕ

-- `getIrcUserName`: spaces become underscores.
pub get_irc_user_name : ApiUser → List ℕ
get_irc_user_name u = map (λ c. if c == b' ' then b'_' else c) u.user_name

-- A response in the queue, with the time that the rate limiter blocked its thread.
pub record Queued : Type 0 where
  pub response : Response
  pub event : GameChatEvent
  pub blocked : ℕ

pub record Language : Type 0 where
  pub api_timeout : String
  pub external : String → String
  pub internal : String → String
  pub unknown_command : List ℕ → String
  pub hug : ApiUser → Response
  pub welcome_user : ApiUser → ℤ → Response
  pub help : String

module _ (W : Type 0) where
  pub record Bot : Type 0 where
    pub limiter : Limiter
    pub queue : List Queued
    pub world : W

  abbrev pub M : Type 0 → Type 0
  M A = Bot → Outcome A × Bot

  pub record UserData : Type 0 where
    pub show_welcome_message : Bool
    pub osu_track_welcome : Bool
    pub language : M Language

  -- All that the bot calls. Names on IRC are lists of code points.
  pub record Services : Type 0 where
    pub resolve_irc_name : List ℕ → M (Option ℕ)
    pub set_mapping : List ℕ → ℕ → M (Unit {0})
    pub redownload_user : List ℕ → M (Option ApiUser)
    pub get_user : ℕ → ℕ → M (Option ApiUser)
    pub get_donator : ℕ → M ℕ
    pub load_user_data : ℕ → M UserData
    pub save_user_data : ℕ → M (Unit {0})
    pub get_last_visited_version : List ℕ → M ℤ
    pub set_last_visited_version : List ℕ → ℤ → M (Unit {0})
    pub get_last_activity : ApiUser → M ℕ
    pub register_activity : ℕ → ℕ → M (Unit {0})
    pub get_update : ℕ → M Response
    pub fix_id : List ℕ → M (Option Response)
    pub link_ppaddict : List ℕ → ApiUser → M (Option Response)
    pub now_playing : List ℕ → ApiUser → Language → M (Option Response)
    pub command_handlers : ApiUser → Language → List (CommandHandler Bot)
    pub random_string : Bot → String × Bot
    pub default_language : Language
    pub confusing_name : String → String
    -- `queue.onResponse`: whether `put` throws an `InterruptedException`
    pub put_interrupted : W → Bool

module _ {W : Type 0} where
  abbrev pub bind : {A B : Type 0} → Outcome A × Bot W → (A → M W B) → Outcome B × Bot W
  bind (ok a, s) f = f a s
  bind (throws e, s) f = (throws e, s)

  infixl 5 ◌>>=◌ ◌>>◌
  abbrev pub ◌>>=◌ : {A B : Type 0} → M W A → (A → M W B) → M W B
  ◌>>=◌ m f s = bind (m s) f

  abbrev pub ◌>>◌ : {B : Type 0} → M W (Unit {0}) → M W B → M W B
  m >> k = m >>= λ _. k

  abbrev pub pure : {A : Type 0} → A → M W A
  pure a s = (ok a, s)

  abbrev pub or_catch :
      {A : Type 0}
      → (Exception → Bool)
      → (Exception → M W A)
      → Outcome A × Bot W
      → Outcome A × Bot W
  or_catch caught handler (ok a, s) = (ok a, s)
  or_catch caught handler (throws e, s) = if caught e then handler e s else (throws e, s)

  -- `try { m } catch (e) { handler }` for the exceptions that `caught` selects.
  abbrev pub try_catch : {A : Type 0} → (Exception → Bool) → M W A → (Exception → M W A) → M W A
  try_catch caught m handler s = or_catch caught handler (m s)
