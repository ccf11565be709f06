-- ===== src/Bot/Events.antt =====
-- IRCBot.java: `welcomeIfDonator`, `visit`, `sendResponse`, `registerActivity` and `onEvent`.
pub mod Keeping
pub mod Endings
use tillerinobot.Prelude.{
  ℕ, Bool, true, false, not, ◌&&◌, ◌||◌, Option, none, some, List, [], ◌∷◌, if◌then◌else◌, ltb, leb,
  ◌==◌, codes,
}
use tillerinobot.Prelude.Int.{ℤ, pos, ◌-ℤ◌}
use tillerinobot.Exceptions.{
  Exception, interrupted, user_exception, socket_timeout, io_exception, sql_exception,
  sql_recoverable, maintenance, error, execution, is_timeout,
}
use tillerinobot.Limiter
use tillerinobot.Limiter.{Limiter, set_thread_priority, clear_thread_priority, blocked_time}
use tillerinobot.Chat.Response.{Response, no_response, and_then}
use tillerinobot.Chat.Event.{
  GameChatEvent, Kind, private_message, private_action, joined, sighted, is_interactive,
}
use tillerinobot.Bot.{
  Outcome, ok, throws, ApiUser, Queued, Language, Bot, M, bind, UserData, Services, ◌>>=◌, ◌>>◌,
  pure, try_catch,
}
use tillerinobot.Bot.Messages.{
  handle_exception, check_version_info, with_user_data, process_private_message,
  process_private_action,
}

-- `SQLException | IOException | UserException | MaintenanceException`.
pub is_caught_joined : Exception → Bool
is_caught_joined sql_exception = true
is_caught_joined sql_recoverable = true
is_caught_joined socket_timeout = true
is_caught_joined (io_exception text) = true
is_caught_joined (user_exception text) = true
is_caught_joined maintenance = true
is_caught_joined _ = false

-- `catch (Exception e)`: all but an `Error`, an interruption included.
pub is_exception : Exception → Bool
is_exception error = false
is_exception _ = true

module _ {W : Type 0} (services : Services W) where
  -- What times out counts as not found.
  pub found_in_time : {A : Type 0} → M W (Option A) → M W (Option A)
  found_in_time m = try_catch is_timeout m (λ e. pure none)

  with_update : ApiUser → UserData W → Response → M W Response
  with_update user user_data welcome =
      if user_data.osu_track_welcome
      then (services.get_update user.user_id >>= λ update. pure (and_then welcome (some update)))
      else pure welcome

  welcome_donator : List ℕ → ℕ → ApiUser → UserData W → M W Response
  unfolding with_update
  welcome_donator nick now user user_data =
      if not user_data.show_welcome_message
      then pure no_response
      else (services.get_last_activity user >>= λ last. user_data.language >>= λ lang.
          with_update user user_data (lang.welcome_user user (pos now -ℤ pos last)) >>= λ welcome.
          check_version_info services nick >>= λ version_info.
          pure (and_then welcome (some version_info)))

  welcome_user : List ℕ → ℕ → ℕ → ApiUser → M W Response
  unfolding welcome_donator
  welcome_user nick now id user = services.get_donator user.user_id >>= λ hearts.
      if hearts == 0
      then pure no_response
      else with_user_data services id (welcome_donator nick now user)

  welcome_id : List ℕ → ℕ → ℕ → M W Response
  unfolding welcome_user found_in_time
  welcome_id nick now id = found_in_time (services.get_user id 0) >>= λ found. elim found [
    | none ↦ pure no_response
    | some user ↦ welcome_user nick now id user
  ]

  pub welcome_if_donator : List ℕ → ℕ → M W Response
  unfolding welcome_id found_in_time
  welcome_if_donator nick now = found_in_time (services.resolve_irc_name nick) >>= λ found.
      elim found [ none ↦ pure no_response | some id ↦ welcome_id nick now id ]

  unfoldable pub visit_kind : Kind → List ℕ → ℕ → M W Response
  visit_kind joined nick now =
      try_catch is_caught_joined (welcome_if_donator nick now)
        (λ e. handle_exception services e services.default_language >>= λ _. pure no_response)
  visit_kind (private_message text) nick now = process_private_message services nick (codes text)
  visit_kind (private_action text) nick now = process_private_action services nick (codes text)
  visit_kind sighted nick now = pure no_response

  unfoldable pub visit : GameChatEvent → ℕ → M W Response
  unfolding visit_kind
  visit event now = visit_kind event.kind (codes event.nick) now

  -- `sendResponse`: the blocked time goes with the response and is cleared.
  pub put_response : Queued → M W (Unit {0})
  put_response q s =
      if services.put_interrupted s.world
      then (throws interrupted, s)
      else (ok tt, record s { queue = q ∷ s.queue })

  pub send_response : ℕ → GameChatEvent → Response → M W (Unit {0})
  unfolding put_response
  send_response thread event response s =
      let (blocked, limiter) = blocked_time thread s.limiter in
      put_response (record { response = response; event = event; blocked = blocked })
        (record s { limiter = limiter })

  note_user : ℕ → Option ℕ → M W (Unit {0})
  note_user timestamp none = pure tt
  note_user timestamp (some id) = services.register_activity id timestamp

  pub register_activity : List ℕ → ℕ → M W (Unit {0})
  unfolding note_user
  register_activity nick timestamp =
      try_catch is_exception (services.resolve_irc_name nick >>= note_user timestamp) (λ e. pure tt)

  -- The first lines of `onEvent`, and the `finally` block.
  unfoldable pub begin_event : ℕ → GameChatEvent → Bot W → Bot W
  begin_event thread event s = record s {
    limiter =
        (blocked_time thread (
          set_thread_priority thread
            (if is_interactive event then Limiter.request else Limiter.event) s.limiter)).1;
  }

  unfoldable pub end_event : ℕ → Bot W → Bot W
  end_event thread s = record s {
    limiter = (blocked_time thread (clear_thread_priority thread s.limiter)).1;
  }

  after_visit : ℕ → GameChatEvent → Response → M W (Unit {0})
  after_visit thread event response =
      send_response thread event response >> register_activity (codes event.nick) event.timestamp

  pub work : ℕ → ℕ → GameChatEvent → M W (Unit {0})
  unfolding after_visit
  work thread now event = visit event now >>= after_visit thread event

  -- An interruption ends the method, all else leaves it.
  finish : ℕ → Outcome (Unit {0}) × Bot W → Outcome (Unit {0}) × Bot W
  unfolding end_event
  finish thread (ok u, s) = (ok u, end_event thread s)
  finish thread (throws interrupted, s) = (ok tt, end_event thread s)
  finish thread (throws e, s) = (throws e, end_event thread s)

  unfoldable pub on_event : ℕ → ℕ → GameChatEvent → M W (Unit {0})
  unfolding begin_event work finish
  on_event thread now event s = finish thread (work thread now event (begin_event thread event s))
