-- ===== src/Chat/Preprocessor.antt =====
-- tillerinobot/src/main/java/org/tillerino/ppaddict/chat/impl/MessagePreprocessor.java. The event
-- queue, the response queue and the notices to `LiveActivity` are lists, the newest entry first.
-- Logging and timing are left out, and so is an interruption while a queue is full. The clock is
-- an argument.
pub mod Warnings
pub mod Locks
mod Tests
use tillerinobot.Prelude.{
  ℕ, ◌+◌, ◌^◌, Bool, true, false, not, ◌&&◌, Option, none, some, List, [], ◌∷◌, String,
  if◌then◌else◌, ltb, leb,
}
use tillerinobot.Chat.Bouncer.{SemaphorePayload, Bouncer, get, try_enter, update_if_present}
use tillerinobot.Chat.Response.{Response, message, no_response}
use tillerinobot.Chat.Event.{GameChatEvent, is_interactive}

pub record Preprocessor : Type 0 where
  pub bouncer : Bouncer
  pub queue : List GameChatEvent
  pub responses : List (Response × GameChatEvent)
  pub live_activity : List (String × ℕ)

with_warning_sent : SemaphorePayload → Option SemaphorePayload
with_warning_sent p = some (record p { warning_sent = true })

pub set_warning_sent : GameChatEvent → SemaphorePayload → Bouncer → Bouncer × Bool
unfolding with_warning_sent
set_warning_sent event feedback b =
    update_if_present event.nick feedback.event_id with_warning_sent b

abbrev pub slow_message : Response
slow_message = message "Just a second..."

abbrev pub many_message : Response
many_message = message "[http://i.imgur.com/Ykfua8r.png ...]"

-- `feedback.getAttemptsSinceEntered() >= 3` on the bit pattern of an `int`.
abbrev at_least_three : ℕ → Bool
at_least_three a = leb 3 a && ltb a (2 ^ 31)

-- The second `if`, also reached after the first one.
after_attempts : GameChatEvent → SemaphorePayload → Bouncer → Response × Bouncer
unfolding set_warning_sent
after_attempts event feedback b =
    if at_least_three feedback.attempts_since_entered && not feedback.warning_sent
    then (let (b', changed) = set_warning_sent event feedback b in
        if changed then (many_message, b') else (no_response, b'))
    else (no_response, b)

-- The function that is mapped over the lock's payload `feedback`. The processing time is more than
-- five seconds exactly if its milliseconds are more than 5000.
respond_in_use : GameChatEvent → SemaphorePayload → ℕ → Bouncer → Response × Bouncer
unfolding after_attempts
respond_in_use event feedback now b =
    if ltb (feedback.entered_time + 5000) now && not feedback.warning_sent
    then (let (b', changed) = set_warning_sent event feedback b in
        if changed then (slow_message, b') else after_attempts event feedback b')
    else after_attempts event feedback b

pub handle_semaphore_in_use : GameChatEvent → ℕ → Bouncer → Response × Bouncer
unfolding respond_in_use
handle_semaphore_in_use event now b = elim (get event.nick b) [
  | none ↦ (no_response, b)
  | some feedback ↦ respond_in_use event feedback now b
]

abbrev pub on_queue : GameChatEvent → Preprocessor → Preprocessor
on_queue event s = record s { queue = event ∷ s.queue }

-- The lock was in use: answer, and do not queue the event.
abbrev reject : GameChatEvent → ℕ → Preprocessor → Preprocessor
reject event now s =
    let (r, b) = handle_semaphore_in_use event now s.bouncer in
    record s { bouncer = b; responses = (r, event) ∷ s.responses }

-- `isInteractive() && !tryEnter(…)`.
admit : GameChatEvent → ℕ → Preprocessor → Preprocessor
unfolding handle_semaphore_in_use
admit event now s =
    if is_interactive event
    then (let (b, entered) = try_enter event.nick event.event_id now s.bouncer in
        if entered
        then on_queue event (record s { bouncer = b })
        else reject event now (record s { bouncer = b }))
    else on_queue event s

-- Messages and actions are the interactive events.
abbrev pub note : GameChatEvent → Preprocessor → Preprocessor
note event s =
    if is_interactive event
    then record s { live_activity = (event.nick, event.event_id) ∷ s.live_activity }
    else s

unfoldable pub on_event : GameChatEvent → ℕ → Preprocessor → Preprocessor
unfolding admit
on_event event now s = admit event now (note event s)
