-- ===== src/Chat/Postprocessor.antt =====
-- tillerinobot/src/main/java/org/tillerino/ppaddict/chat/impl/ResponsePostprocessor.java with the
-- result type of GameChatWriter.java (tillerinobot-model). The writer is a parameter: what it
-- answers, whether a sleep between two tries is interrupted, and the state it goes to. Logging and
-- timers are left out. The clock and whether the recommend handler made the response are arguments.

pub mod Delivery
pub mod Retries
mod Tests
use tillerinobot.Prelude.{
  ℕ, zero, suc, Bool, true, false, Option, none, some, List, [], ◌∷◌, String, if◌then◌else◌,
}
use tillerinobot.Chat.Bouncer.{Bouncer, exit}
use tillerinobot.Chat.Response.{
  Response, message, success, action, no_response, response_list, flatten,
}
use tillerinobot.Chat.Event.{GameChatEvent, is_interactive}

pub data Error : Type 0 where
  timeout unknown : Error
  retry ping_death : ℕ → Error

-- An answer of the writer: a response with its ping, an error, an `IOException` or any other
-- exception.
pub data Answer : Type 0 where
  ok : Option ℕ → Answer
  err : Error → Answer
  io_exception crash : Answer

pub record Writer : Type 1 where
  pub World : Type 0
  pub message : String → String → World → Answer × World
  pub action : String → String → World → Answer × World
  -- `Thread.sleep`: true if it throws an `InterruptedException`
  pub sleep : ℕ → World → Bool × World

-- How the processing of a response ended: normally, by an `IOException`, by an
-- `InterruptedException` or by another exception.
pub data Ending : Type 0 where
  completed io_failed interrupted crashed : Ending

module _ (writer : Writer) where
  open writer use {World}

  pub record Postprocessor : Type 0 where
    pub bouncer : Bouncer
    pub world : World
    -- the notices of sent messages: nick, event id and ping, the newest first
    pub live_activity : List (String × ℕ × Option ℕ)
    pub last_sent_message : Option ℕ
    pub last_recommendation : Option ℕ
    pub slept : List ℕ

  module _ (event : GameChatEvent) (now : ℕ) (is_recommend : Bool) where
    abbrev propagate : Option ℕ → Postprocessor → Postprocessor
    propagate ping s = record s {
      live_activity = (event.nick, event.event_id, ping) ∷ s.live_activity;
    }

    -- The function that `message` maps over a good result.
    sent : Bool → Option ℕ → Postprocessor → Postprocessor
    sent is_success ping s =
        let s' =
          (if is_success
            then (if is_recommend then record s { last_recommendation = some now } else s)
            else s) in
        record (propagate ping s') { last_sent_message = some now }

    sent_message : Bool → Answer × World → Postprocessor → Answer × Postprocessor
    unfolding sent
    sent_message is_success (ok ping, w) s =
        (ok ping, sent is_success ping (record s { world = w }))
    sent_message is_success (a, w) s = (a, record s { world = w })

    sent_action : Answer × World → Postprocessor → Answer × Postprocessor
    sent_action (ok ping, w) s = (ok ping, propagate ping (record s { world = w }))
    sent_action (a, w) s = (a, record s { world = w })

    -- Lists and `none` are not implemented here.
    handle_response : Response → Postprocessor → Answer × Postprocessor
    unfolding sent_message sent_action
    handle_response (message msg) s = sent_message false (writer.message msg event.nick s.world) s
    handle_response (success msg) s = sent_message true (writer.message msg event.nick s.world) s
    handle_response (action msg) s = sent_action (writer.action msg event.nick s.world) s
    handle_response no_response s = (crash, s)
    handle_response (response_list rs) s = (crash, s)

    -- Behind `Thread.sleep`.
    after_sleep :
        ℕ
        → Bool × World
        → Postprocessor
        → (Postprocessor → Ending × Postprocessor)
        → Ending × Postprocessor
    after_sleep millis (false, w) s again = again (record s { world = w; slept = millis ∷ s.slept })
    after_sleep millis (true, w) s again = (interrupted, record s { world = w })

    -- The body of the retry loop behind `handleResponse`: `again` is the next round.
    after_try :
        Answer × Postprocessor → (Postprocessor → Ending × Postprocessor) → Ending × Postprocessor
    unfolding after_sleep
    after_try (ok ping, s) again = (completed, s)
    after_try (err (retry millis), s) again =
        after_sleep millis (writer.sleep millis s.world) s again
    after_try (err (ping_death millis), s) again = again s
    after_try (err timeout, s) again = (completed, s)
    after_try (err unknown, s) again = (completed, s)
    after_try (io_exception, s) again = (io_failed, s)
    after_try (crash, s) again = (crashed, s)

    -- The retry loop with the rounds that are left.
    pub send : ℕ → Response → Postprocessor → Ending × Postprocessor
    unfolding after_try
    send zero r s = (completed, s)
    send (suc rounds) r s = after_try (handle_response r s) (λ s'. send rounds r s')

    abbrev pub retry_limit : ℕ
    retry_limit = 10

    if_completed :
        Ending × Postprocessor → (Postprocessor → Ending × Postprocessor) → Ending × Postprocessor
    if_completed (completed, s) rest = rest s
    if_completed (io_failed, s) rest = (io_failed, s)
    if_completed (interrupted, s) rest = (interrupted, s)
    if_completed (crashed, s) rest = (crashed, s)

    pub send_all : List Response → Postprocessor → Ending × Postprocessor
    unfolding if_completed
    send_all [] s = (completed, s)
    send_all (r ∷ rs) s = if_completed (send retry_limit r s) (λ s'. send_all rs s')

    release : Postprocessor → Postprocessor
    release s =
        if is_interactive event
        then record s { bouncer = (exit event.nick event.event_id s.bouncer).0 }
        else s

    -- The `catch` takes an `IOException`; any other exception leaves the method.
    finish : Ending × Postprocessor → Ending × Postprocessor
    unfolding release
    finish (completed, s) = (completed, release s)
    finish (io_failed, s) = (completed, release s)
    finish (interrupted, s) = (interrupted, s)
    finish (crashed, s) = (crashed, s)

    pub on_response : Response → Postprocessor → Ending × Postprocessor
    unfolding finish
    on_response response s = finish (send_all (flatten response) s)
