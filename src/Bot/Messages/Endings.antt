-- ===== src/Bot/Messages/Endings.antt =====
-- How the methods that answer messages and actions end.
use tillerinobot.Prelude.{
  ℕ, ◌≡◌, Bool, true, false, List, if◌then◌else◌, ◌||◌, inl, inr, Bool-cases,
}
use tillerinobot.Exceptions.{
  Exception, interrupted, execution, user_exception, maintenance, sql_recoverable,
  service_unavailable, is_timeout, is_io, is_external,
}
use tillerinobot.Bot.{Outcome, ok, throws, Language, Bot, M, or_catch, Services}
use tillerinobot.Bot.Messages.{
  is_caught, report, handle_cause, handle_exception, process_private_message,
  process_private_action,
}

-- The method returns, or throws what the `catch` clauses of the bot do not name.
abbrev pub Uncaught : {W A : Type 0} → Outcome A × Bot W → Type 0
Uncaught (ok a, s) = Unit
Uncaught (throws e, s) = is_caught e ≡ false

module _ {W : Type 0} (services : Services W) where
  if-Uncaught :
      {A : Type 0} (b : Bool) (m k : M W A) (s : Bot W)
      → Uncaught (m s)
      → Uncaught (k s)
      → Uncaught ((if b then m else k) s)
  if-Uncaught true m k s h h' = h
  if-Uncaught false m k s h h' = h'

  report-Uncaught :
      (e : Exception) (lang : Language) (s : Bot W) → Uncaught (report services e lang s)
  unfolding report
  report-Uncaught e lang s =
      if-Uncaught (is_timeout e) _ _ s tt (if-Uncaught (is_io e || is_external e) _ _ s tt tt)

  handle_cause-Uncaught :
      (e : Exception) (lang : Language) (s : Bot W) → Uncaught (handle_cause services e lang s)
  unfolding handle_cause
  handle_cause-Uncaught interrupted lang s = tt
  handle_cause-Uncaught maintenance lang s = tt
  handle_cause-Uncaught sql_recoverable lang s = tt
  handle_cause-Uncaught (user_exception text) lang s = tt
  handle_cause-Uncaught service_unavailable lang s = tt
  handle_cause-Uncaught (execution e) lang s = report-Uncaught (execution e) lang s
  handle_cause-Uncaught e lang s = report-Uncaught e lang s

  handle_exception-Uncaught :
      (e : Exception) (lang : Language) (s : Bot W) → Uncaught (handle_exception services e lang s)
  unfolding handle_exception
  handle_exception-Uncaught e lang s = handle_cause-Uncaught _ lang s

  or_catch-Uncaught :
      {A : Type 0} (handler : Exception → M W A) (x : Outcome A × Bot W)
      → ((e : Exception) (s : Bot W) → Uncaught (handler e s))
      → Uncaught (or_catch is_caught handler x)
  or_catch-Uncaught handler (ok a, s) h = tt
  or_catch-Uncaught handler (throws e, s) h = elim (Bool-cases (is_caught e)) [
    | inl c ↦ rw c (h e s)
    | inr c ↦ rw c c
  ]

  pub process_private_message-Uncaught :
      (nick text : List ℕ) (s : Bot W) → Uncaught (process_private_message services nick text s)
  unfolding process_private_message
  process_private_message-Uncaught nick text s =
      or_catch-Uncaught _ _ (λ e t. handle_exception-Uncaught e services.default_language t)

  pub process_private_action-Uncaught :
      (nick text : List ℕ) (s : Bot W) → Uncaught (process_private_action services nick text s)
  unfolding process_private_action
  process_private_action-Uncaught nick text s =
      or_catch-Uncaught _ _ (λ e t. handle_exception-Uncaught e services.default_language t)
