-- ===== src/Bot/Messages.antt =====
-- IRCBot.java: `handleException`, `checkVersionInfo`, `getUserOrThrow`, `processPrivateMessage` and
-- `processPrivateAction`. Texts are lists of code points, and letters are those of ASCII.
pub mod Endings
pub mod Keeping
pub mod Version
use tillerinobot.Prelude.{
  ℕ, ◌+◌, ◌*◌, Bool, true, false, not, ◌&&◌, ◌||◌, Option, none, some, List, [], ◌∷◌, ◌++◌, map,
  String, if◌then◌else◌, ltb, leb, ◌==◌, codes,
}
use tillerinobot.Prelude.Int.{ℤ, pos, negsuc, ltb_ℤ}
use tillerinobot.Exceptions.{
  Exception, interrupted, execution, user_exception, socket_timeout, io_exception, sql_exception,
  maintenance, sql_recoverable, service_unavailable, web_application, runtime, error, is_timeout,
  is_external, is_io,
}
use tillerinobot.Commands.{
  Handled, not_handled, response, CommandHandler, or_next, to_lower, strip_prefix,
}
use tillerinobot.Commands
use tillerinobot.Chat.Response.{Response, message, no_response, and_then}
use tillerinobot.Frontend.Welcome.{same_text}
use tillerinobot.Bot.Texts.{find_hug, command_of}
use tillerinobot.Bot.{
  Outcome, ok, throws, ApiUser, get_irc_user_name, Language, Bot, M, bind, UserData, Services,
  ◌>>=◌, ◌>>◌, pure, try_catch,
}

-- `RuntimeException | Error | UserException | IOException | SQLException`.
unfoldable pub is_caught : Exception → Bool
is_caught interrupted = false
is_caught (execution e) = false
is_caught _ = true

-- `if (e instanceof ExecutionException) { e = e.getCause(); }`.
abbrev cause : Exception → Exception
cause (execution e) = e
cause e = e

abbrev pub current_version : ℤ
current_version = pos 13

abbrev pub version_message : Response
version_message =
    message
      "This is embarrasing. Looks like I didn't know about the HD nerf for a quite a while. Don't worry: I'm all caught up now. I'll be updating my pp records over the following days."

module _ {W : Type 0} (services : Services W) where
  abbrev pub name_log : (String → String) → M W Response
  name_log f s = let (r, s') = services.random_string s in (ok (message (f r)), s')

  -- The chain of tests behind the user's own exceptions.
  pub report : Exception → Language → M W Response
  report e lang =
      if is_timeout e
      then pure (message lang.api_timeout)
      else if is_io e || is_external e
      then name_log lang.external
      else name_log lang.internal

  pub handle_cause : Exception → Language → M W Response
  unfolding report
  handle_cause interrupted lang = pure no_response
  handle_cause maintenance lang =
      pure (message "I'm undergoing maintenance and can't do that right now.")
  handle_cause sql_recoverable lang =
      pure (message "I'm undergoing maintenance and can't do that right now.")
  handle_cause (user_exception text) lang = pure (message text)
  handle_cause service_unavailable lang = pure no_response
  handle_cause e lang = report e lang

  unfoldable pub handle_exception : Exception → Language → M W Response
  unfolding handle_cause
  handle_exception e lang = handle_cause (cause e) lang

  unfoldable pub greeting : ℤ → Response
  greeting (pos n) = version_message
  greeting (negsuc n) = if n == 0 then message services.default_language.help else version_message

  unfoldable pub greet : List ℕ → ℤ → M W Response
  unfolding greeting
  greet nick version =
      if ltb_ℤ version current_version
      then (services.set_last_visited_version nick current_version >> pure (greeting version))
      else pure no_response

  unfoldable pub check_version_info : List ℕ → M W Response
  check_version_info nick = services.get_last_visited_version nick >>= greet nick

  abbrev confused : M W ApiUser
  confused s =
      let (r, s') = services.random_string s in
      (throws (user_exception (services.confusing_name r)), s')

  -- A user of another name stands in the mapping: both mappings are repaired.
  checked_user : List ℕ → ApiUser → M W (Option ApiUser)
  checked_user nick u =
      if same_text nick (get_irc_user_name u)
      then pure (some u)
      else services.set_mapping (get_irc_user_name u) u.user_id >> services.redownload_user nick

  known_user : List ℕ → Option ℕ → M W (Option ApiUser)
  unfolding checked_user
  known_user nick none = pure none
  known_user nick (some id) = services.get_user id (60 * 60 * 1000) >>= λ found. elim found [
    | none ↦ pure none
    | some u ↦ checked_user nick u
  ]

  pub get_user_or_throw : List ℕ → M W ApiUser
  unfolding known_user
  get_user_or_throw nick = services.resolve_irc_name nick >>= λ id.
      known_user nick id >>= λ found. elim found [ none ↦ confused | some u ↦ pure u ]

  -- `close()` behind the block: of two exceptions, that of the block counts.
  close_user_data :
      {A : Type 0} → Outcome A × Bot W → (Bot W → Outcome (Unit {0}) × Bot W) → Outcome A × Bot W
  close_user_data (throws e, s) close = (throws e, (close s).1)
  close_user_data (ok a, s) close = bind (close s) (λ _. pure a)

  -- `try (UserData userData = …) { … }`.
  pub with_user_data : {A : Type 0} → ℕ → (UserData W → M W A) → M W A
  unfolding close_user_data
  with_user_data id body = services.load_user_data id >>= λ user_data.
      λ s. close_user_data (body user_data s) (services.save_user_data id)

  -- The loop over the command handlers.
  pub run_handlers : List (CommandHandler (Bot W)) → List ℕ → Bot W → Handled × Bot W
  run_handlers [] command s = (not_handled, s)
  run_handlers (h ∷ hs) command s = or_next (Bot W) (run_handlers hs command) (h.handle command s)

  or_unknown : Language → List ℕ → Handled × Bot W → Outcome Response × Bot W
  or_unknown lang command (not_handled, s) =
      (throws (user_exception (lang.unknown_command command)), s)
  or_unknown lang command (response r, s) = (ok r, s)
  or_unknown lang command (Commands.throws e, s) = (throws e, s)

  answer_command : ApiUser → Language → List ℕ → M W Response
  unfolding run_handlers or_unknown
  answer_command user lang command s =
      or_unknown lang command (run_handlers (services.command_handlers user lang) command s)

  -- Behind `checkVersionInfo`: what the `catch` makes of an exception follows the version message.
  command_response : ApiUser → Language → List ℕ → Response → M W Response
  unfolding answer_command
  command_response user lang command prelim =
      try_catch is_caught (answer_command user lang command) (λ e. handle_exception e lang) >>= λ r.
      pure (and_then prelim (some r))

  bang_response : List ℕ → ApiUser → Language → List ℕ → M W Response
  unfolding command_response
  bang_response nick user lang [] = pure no_response
  bang_response nick user lang (c ∷ text) =
      if c == b'!'
      then (check_version_info nick >>= λ prelim.
          command_response user lang (command_of text) prelim)
      else pure no_response

  -- `userData.getHearts()` is read only for a text that asks for a hug.
  wants_hug : List ℕ → ApiUser → M W Bool
  unfolding find_hug
  wants_hug text user =
      if find_hug false text
      then (services.get_donator user.user_id >>= λ hearts. pure (ltb 0 hearts))
      else pure false

  hug_or_command : List ℕ → List ℕ → ApiUser → Language → M W Response
  unfolding bang_response wants_hug
  hug_or_command nick text user lang = wants_hug text user >>= λ hug.
      if hug
      then pure (lang.hug user)
      else (services.link_ppaddict text user >>= λ linked. elim linked [
        | some r ↦ pure r
        | none ↦ bang_response nick user lang text
      ])

  message_in_language : List ℕ → List ℕ → ApiUser → Language → M W Response
  unfolding hug_or_command
  message_in_language nick text user lang =
      try_catch is_caught (hug_or_command nick text user lang) (λ e. handle_exception e lang)

  pub user_message : List ℕ → List ℕ → M W Response
  unfolding message_in_language
  user_message nick text = get_user_or_throw nick >>= λ user.
      with_user_data user.user_id
        (λ data'. data'.language >>= λ lang. message_in_language nick text user lang)

  unfoldable pub process_private_message : List ℕ → List ℕ → M W Response
  process_private_message nick text =
      try_catch is_caught
        (services.fix_id text >>= λ fixed. elim fixed [
          | some r ↦ pure r
          | none ↦ user_message nick text
        ])
        (λ e. handle_exception e services.default_language)

  playing_in_language : List ℕ → ApiUser → Language → M W (Option Response)
  playing_in_language text user lang =
      try_catch is_caught (services.now_playing text user lang)
        (λ e. handle_exception e lang >>= λ r. pure (some r))

  user_action : List ℕ → List ℕ → Response → M W Response
  unfolding playing_in_language
  user_action nick text version_info = get_user_or_throw nick >>= λ user.
      with_user_data user.user_id (λ data'. data'.language >>= λ lang.
      playing_in_language text user lang >>= λ r. pure (and_then version_info r))

  pub process_private_action : List ℕ → List ℕ → M W Response
  unfolding user_action
  process_private_action nick text =
      try_catch is_caught
        (check_version_info nick >>= λ version_info.
          try_catch is_caught (user_action nick text version_info) (λ e.
            handle_exception e services.default_language >>= λ r.
            pure (and_then version_info (some r))))
        (λ e. handle_exception e services.default_language)
