-- ===== src/Chat/Preprocessor/Warnings.antt =====
-- Which events reach the queue, and how often a waiting user is warned.
use tillerinobot.Prelude.{
  ℕ, ◌+◌, ◌≤◌, ◌≡◌, true, false, not, ◌&&◌, Option, none, some, List, [], ◌∷◌, String,
  if◌then◌else◌, arith, str_eq, eq_iff,
}
use tillerinobot.Chat.Bouncer.{SemaphorePayload, get, try_enter, update_if_present}
use tillerinobot.Chat.Response.{Response, is_none}
use tillerinobot.Chat.Event.{GameChatEvent, is_interactive}
use tillerinobot.Chat.Preprocessor.{Preprocessor, on_event, on_queue, handle_semaphore_in_use}

-- Non-interactive events are queued whatever the lock says, which they do not touch; an
-- interactive event is queued exactly if its user's lock is free, and then holds it.
pub on_event_queues :
    (e : GameChatEvent) (now : ℕ) (s : Preprocessor)
    → (is_interactive e ≡ false → on_event e now s ≡ on_queue e s)
      × (is_interactive e ≡ true
          → get e.nick s.bouncer ≡ none
          → ((on_event e now s).queue ≡ e ∷ s.queue)
            × ((on_event e now s).responses ≡ s.responses)
            × (get e.nick (on_event e now s).bouncer
                ≡ some (record {
                  event_id = e.event_id;
                  entered_time = now;
                  attempts_since_entered = 0;
                  warning_sent = false;
                })))
      × ((p : SemaphorePayload)
          → is_interactive e ≡ true
          → get e.nick s.bouncer ≡ some p
          → ((on_event e now s).queue ≡ s.queue)
            × ((on_event e now s).responses
                ≡ (
                  (handle_semaphore_in_use e now (try_enter e.nick e.event_id now s.bouncer).0).0,
                  e,
                )
                  ∷ s.responses))
unfolding on_event get try_enter
on_event_queues e now s = (
  λ i. ground arith,
  λ i h. (ground arith, ground arith, ground (arith, eq_iff e.nick e.nick)),
  λ p i h. (ground arith, ground arith),
)

-- The warnings that a user was sent.
abbrev pub warnings : String → List (Response × GameChatEvent) → ℕ
warnings nick [] = 0
warnings nick ((r, e) ∷ rest) =
    if str_eq nick e.nick && not (is_none r) then warnings nick rest + 1 else warnings nick rest

-- How many warnings the event that holds the lock may still bring about.
abbrev pub allowance : Option SemaphorePayload → ℕ
allowance none = 0
allowance (some p) = if p.warning_sent then 0 else 1

abbrev pub held_by : Option SemaphorePayload → Option ℕ
held_by none = none
held_by (some p) = some p.event_id

pub record Spent (nick : String) (id total : ℕ) (s : Preprocessor) : Type 0 where
  pub held : held_by (get nick s.bouncer) ≡ some id
  pub few : warnings nick s.responses + allowance (get nick s.bouncer) ≤ total

on_event-Spent :
    (nick : String) (id total : ℕ) (e : GameChatEvent) (now : ℕ) (s : Preprocessor)
    → Spent nick id total s
    → Spent nick id total (on_event e now s)
unfolding on_event get try_enter update_if_present is_none
on_event-Spent nick id total e now s h = record {
  held = ground (arith, h.held, eq_iff nick e.nick, eq_iff e.nick e.nick, eq_iff e.nick nick);
  few = ground (arith, h.held, h.few, eq_iff nick e.nick, eq_iff e.nick e.nick, eq_iff e.nick nick);
}

unfoldable pub run : List (GameChatEvent × ℕ) → Preprocessor → Preprocessor
run [] s = s
run ((e, now) ∷ es) s = run es (on_event e now s)

run-Spent :
    (nick : String) (id total : ℕ) (es : List (GameChatEvent × ℕ)) (s : Preprocessor)
    → Spent nick id total s
    → Spent nick id total (run es s)
unfolding run
run-Spent nick id total [] s h = h
run-Spent nick id total ((e, now) ∷ es) s h =
    run-Spent nick id total es (on_event e now s) (on_event-Spent nick id total e now s h)

-- While one event of a user holds the lock, whatever events of whatever users come in, that user
-- is sent at most one warning, and the lock stays with the event.
pub run_one_warning :
    (nick : String) (es : List (GameChatEvent × ℕ)) (s : Preprocessor) (p : SemaphorePayload)
    → get nick s.bouncer ≡ some p
    → (warnings nick (run es s).responses ≤ warnings nick s.responses + 1)
      × (held_by (get nick (run es s).bouncer) ≡ some p.event_id)
run_one_warning nick es s p h =
    let start : Spent nick p.event_id (warnings nick s.responses + 1) s = record {
      held = ground (arith, h);
      few = ground (arith, h);
    } in
    let end = run-Spent nick p.event_id _ es s start in (omega (arith, end.few), end.held)
