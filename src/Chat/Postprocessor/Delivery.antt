-- ===== src/Chat/Postprocessor/Delivery.antt =====
-- The lock behind `onResponse`, and how often a response is written.
use tillerinobot.Prelude.{
  ℕ, zero, suc, ◌+◌, ◌≤◌, ◌≡◌, ◌≢◌, refl, Bool, true, false, List, [], ◌∷◌, String, if◌then◌else◌,
  arith, All, length, ◌∙◌,
}
use tillerinobot.Chat.Bouncer.{exit}
use tillerinobot.Chat.Response.{
  Response, message, success, action, no_response, response_list, flatten,
}
use tillerinobot.Chat.Response.Laws.{IsSingle}
use tillerinobot.Chat.Event.{GameChatEvent, is_interactive}
use tillerinobot.Chat.Postprocessor.{
  timeout, unknown, retry, ping_death, Answer, ok, err, io_exception, crash, Writer, Ending,
  completed, io_failed, interrupted, crashed, after_sleep, Postprocessor, sent_message, sent_action,
  handle_response, after_try, send, if_completed, send_all, finish, on_response,
}

-- The writer answers, or throws an `IOException`, but nothing else.
pub record NeverCrashes (writer : Writer) : Type 0 where
  pub messages : (msg nick : String) (w : writer.World) → (writer.message msg nick w).0 ≢ crash
  pub actions : (msg nick : String) (w : writer.World) → (writer.action msg nick w).0 ≢ crash

abbrev pub is_interrupted : Ending → Bool
is_interrupted completed = false
is_interrupted io_failed = false
is_interrupted interrupted = true
is_interrupted crashed = false

abbrev delivered : Answer → ℕ
delivered (ok ping) = 1
delivered _ = 0

module _ (writer : Writer) (event : GameChatEvent) (now : ℕ) (is_recommend : Bool) where
  -- A try leaves the lock alone, adds a notice only if it succeeds, and does not crash.
  record Tried (s : Postprocessor writer) (x : Answer × Postprocessor writer) : Type 0 where
    bouncer : x.1.bouncer ≡ s.bouncer
    notices : length x.1.live_activity ≤ length s.live_activity + delivered x.0
    no_crash : x.0 ≢ crash

  sent_message-Tried :
      (b : Bool) (a : Answer × writer.World) (s : Postprocessor writer)
      → a.0 ≢ crash
      → Tried s (sent_message writer event now is_recommend b a s)
  unfolding sent_message
  sent_message-Tried b (ok ping, w) s h = record {
    bouncer = ground arith;
    notices = ground arith;
    no_crash = λ e. cc;
  }
  sent_message-Tried b (a, w) s h = record { bouncer = refl; notices = omega arith; no_crash = h }

  sent_action-Tried :
      (a : Answer × writer.World) (s : Postprocessor writer)
      → a.0 ≢ crash
      → Tried s (sent_action writer event now is_recommend a s)
  unfolding sent_action
  sent_action-Tried (ok ping, w) s h = record {
    bouncer = refl;
    notices = omega arith;
    no_crash = λ e. cc;
  }
  sent_action-Tried (a, w) s h = record { bouncer = refl; notices = omega arith; no_crash = h }

  handle_response-Tried :
      NeverCrashes writer
      → (r : Response) (s : Postprocessor writer) → IsSingle r
      → Tried s (handle_response writer event now is_recommend r s)
  unfolding handle_response
  handle_response-Tried c (message msg) s h =
      sent_message-Tried false _ s (c.messages msg event.nick s.world)
  handle_response-Tried c (success msg) s h =
      sent_message-Tried true _ s (c.messages msg event.nick s.world)
  handle_response-Tried c (action msg) s h =
      sent_action-Tried _ s (c.actions msg event.nick s.world)
  handle_response-Tried c no_response s h = absurd h
  handle_response-Tried c (response_list rs) s h = absurd h

  -- A loop leaves the lock alone, adds at most `budget` notices, and does not crash.
  record Quiet (s : Postprocessor writer) (budget : ℕ) (x : Ending × Postprocessor writer)
      : Type 0 where
    bouncer : x.1.bouncer ≡ s.bouncer
    notices : length x.1.live_activity ≤ length s.live_activity + budget
    no_crash : x.0 ≢ crashed

  after_sleep-Quiet :
      (millis : ℕ) (x : Bool × writer.World) (s : Postprocessor writer)
      (again : Postprocessor writer → Ending × Postprocessor writer)
      → ((s' : Postprocessor writer) → Quiet s' 1 (again s'))
      → Quiet s 1 (after_sleep writer event now is_recommend millis x s again)
  unfolding after_sleep
  after_sleep-Quiet millis (false, w) s again k =
      let q = k (record s { world = w; slept = millis ∷ s.slept }) in
      record { bouncer = q.bouncer; notices = q.notices; no_crash = q.no_crash }
  after_sleep-Quiet millis (true, w) s again k = record {
    bouncer = refl;
    notices = omega arith;
    no_crash = λ e. cc;
  }

  after_try-Quiet :
      (s : Postprocessor writer) (x : Answer × Postprocessor writer)
      (again : Postprocessor writer → Ending × Postprocessor writer)
      → Tried s x
      → ((s' : Postprocessor writer) → Quiet s' 1 (again s'))
      → Quiet s 1 (after_try writer event now is_recommend x again)
  unfolding after_try
  after_try-Quiet s (ok ping, t) again h k = record {
    bouncer = h.bouncer;
    notices = h.notices;
    no_crash = λ e. cc;
  }
  after_try-Quiet s (err (retry millis), t) again h k =
      let q = after_sleep-Quiet millis (writer.sleep millis t.world) t again k in
      record {
        bouncer = q.bouncer ∙ h.bouncer;
        notices = omega (arith, q.notices, h.notices);
        no_crash = q.no_crash;
      }
  after_try-Quiet s (err (ping_death millis), t) again h k =
      let q = k t in
      record {
        bouncer = q.bouncer ∙ h.bouncer;
        notices = omega (arith, q.notices, h.notices);
        no_crash = q.no_crash;
      }
  after_try-Quiet s (err timeout, t) again h k = record {
    bouncer = h.bouncer;
    notices = omega (arith, h.notices);
    no_crash = λ e. cc;
  }
  after_try-Quiet s (err unknown, t) again h k = record {
    bouncer = h.bouncer;
    notices = omega (arith, h.notices);
    no_crash = λ e. cc;
  }
  after_try-Quiet s (io_exception, t) again h k = record {
    bouncer = h.bouncer;
    notices = omega (arith, h.notices);
    no_crash = λ e. cc;
  }
  after_try-Quiet s (crash, t) again h k = absurd (h.no_crash refl)

  send-Quiet :
      NeverCrashes writer
      → (rounds : ℕ) (r : Response) (s : Postprocessor writer) → IsSingle r
      → Quiet s 1 (send writer event now is_recommend rounds r s)
  unfolding send
  send-Quiet c zero r s h = record { bouncer = refl; notices = omega arith; no_crash = λ e. cc }
  send-Quiet c (suc rounds) r s h =
      after_try-Quiet s _ _ (handle_response-Tried c r s h) (λ s'. send-Quiet c rounds r s' h)

  if_completed-Quiet :
      (s : Postprocessor writer) (n : ℕ) (x : Ending × Postprocessor writer)
      (rest : Postprocessor writer → Ending × Postprocessor writer)
      → Quiet s 1 x
      → ((s' : Postprocessor writer) → Quiet s' n (rest s'))
      → Quiet s (suc n) (if_completed writer event now is_recommend x rest)
  unfolding if_completed
  if_completed-Quiet s n (completed, t) rest h k =
      let q = k t in
      record {
        bouncer = q.bouncer ∙ h.bouncer;
        notices = omega (arith, q.notices, h.notices);
        no_crash = q.no_crash;
      }
  if_completed-Quiet s n (io_failed, t) rest h k = record {
    bouncer = h.bouncer;
    notices = omega (arith, h.notices);
    no_crash = h.no_crash;
  }
  if_completed-Quiet s n (interrupted, t) rest h k = record {
    bouncer = h.bouncer;
    notices = omega (arith, h.notices);
    no_crash = h.no_crash;
  }
  if_completed-Quiet s n (crashed, t) rest h k = absurd (h.no_crash refl)

  send_all-Quiet :
      NeverCrashes writer
      → (rs : List Response) (s : Postprocessor writer) → All IsSingle rs
      → Quiet s (length rs) (send_all writer event now is_recommend rs s)
  unfolding send_all
  send_all-Quiet c [] s h = record { bouncer = refl; notices = omega arith; no_crash = λ e. cc }
  send_all-Quiet c (r ∷ rs) s h =
      if_completed-Quiet s (length rs) _ _ (send-Quiet c 10 r s h.0)
        (λ s'. send_all-Quiet c rs s' h.1)

  -- Every response is dealt with, and the lock given back, if no sleep was interrupted.
  pub record Settled (given : Response) (s : Postprocessor writer)
      (x : Ending × Postprocessor writer) : Type 0 where
    pub lock : x.1.bouncer ≡ (
        if is_interrupted x.0
        then s.bouncer
        else if is_interactive event
        then (exit event.nick event.event_id s.bouncer).0
        else s.bouncer)
    pub notices : length x.1.live_activity ≤ length s.live_activity + length (flatten given)
    pub no_crash : x.0 ≢ crashed

  finish-Settled :
      (given : Response) (s : Postprocessor writer) (x : Ending × Postprocessor writer)
      → Quiet s (length (flatten given)) x
      → Settled given s (finish writer event now is_recommend x)
  unfolding finish
  finish-Settled given s (completed, t) q = record {
    lock = ground (arith, q.bouncer);
    notices = ground (arith, q.notices);
    no_crash = λ e. cc;
  }
  finish-Settled given s (io_failed, t) q = record {
    lock = ground (arith, q.bouncer);
    notices = ground (arith, q.notices);
    no_crash = λ e. cc;
  }
  finish-Settled given s (interrupted, t) q = record {
    lock = q.bouncer;
    notices = q.notices;
    no_crash = q.no_crash;
  }
  finish-Settled given s (crashed, t) q = absurd (q.no_crash refl)

-- For a response that writes out single messages and actions, and a writer that may fail or throw
-- an `IOException` at any call, but throws nothing else: unless an `InterruptedException` of the
-- sleep between two tries leaves the method, the lock of an interactive event is given back by
-- `exit`, and any other lock is left alone; if it does, every lock is as before. The live activity
-- hears of at most one sent message for each part of the response; no other exception leaves the
-- method.
pub on_response-Settled :
    (writer : Writer) (event : GameChatEvent) (now : ℕ) (is_recommend : Bool)
    → NeverCrashes writer
    → (given : Response) (s : Postprocessor writer) → All IsSingle (flatten given)
    → Settled writer event now is_recommend given s
        (on_response writer event now is_recommend given s)
unfolding on_response
on_response-Settled writer event now is_recommend c given s h =
    finish-Settled writer event now is_recommend given s _
      (send_all-Quiet writer event now is_recommend c (flatten given) s h)
