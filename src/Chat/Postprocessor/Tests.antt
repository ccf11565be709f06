-- ===== src/Chat/Postprocessor/Tests.antt =====
-- A writer that is connected only after some tries, and the theorems with it.
use tillerinobot.Prelude.{
  ℕ, zero, suc, ◌≡◌, refl, true, false, false, none, some, [], ◌∷◌, String, ◌≢◌, arith,
}
use tillerinobot.Chat.Bouncer.{unlocked, try_enter}
use tillerinobot.Chat.Response.{Response, message, success, response_list, of_list, flatten}
use tillerinobot.Chat.Event.{GameChatEvent, private_message, is_interactive}
use tillerinobot.Chat.Postprocessor.{
  Answer, ok, err, retry, Writer, Postprocessor, send, on_response, handle_response, sent_message,
  send_all,
}
use tillerinobot.Chat.Postprocessor.Delivery.{NeverCrashes, Settled, on_response-Settled}
use tillerinobot.Chat.Postprocessor.Retries.{Delivered, send_message_lem}

abbrev connecting : String → String → ℕ → Answer × ℕ
connecting msg nick zero = (ok none, 0)
connecting msg nick (suc n) = (err (retry 100), n)

abbrev writer : Writer
writer = record {
  World = ℕ;
  message = connecting;
  action = connecting;
  sleep = λ millis w. (false, w);
}

connecting-no_crash : NeverCrashes writer
connecting-no_crash = record { messages = answers; actions = answers }
  where
    answers : (msg nick : String) (w : ℕ) → (connecting msg nick w).0 ≢ Answer.crash
    answers msg nick zero e = cc
    answers msg nick (suc n) e = cc

abbrev event : GameChatEvent
event = record { event_id = 4; nick = "ann"; timestamp = 0; kind = private_message "!r" }

abbrev answer : Response
answer = response_list (of_list (message "a" ∷ success "b" ∷ []))

abbrev locked : ℕ → Postprocessor writer
locked n = record {
  bouncer = (try_enter "ann" 4 10 unlocked).0;
  world = n;
  live_activity = [];
  last_sent_message = none;
  last_recommendation = none;
  slept = [];
}

on_response_test :
    ((on_response writer event 20 true answer (locked 2)).1.live_activity
      ≡ ("ann", 4, none) ∷ ("ann", 4, none) ∷ [])
    × ((on_response writer event 20 true answer (locked 2)).1.last_recommendation ≡ some 20)
    × ((on_response writer event 20 true answer (locked 12)).1.live_activity
        ≡ ("ann", 4, none) ∷ [])
unfolding on_response send_all send handle_response sent_message flatten is_interactive
on_response_test = (refl, refl, refl)

on_response-Settled_example :
    Settled writer event 20 true answer
      (locked 2)
      (on_response writer event 20 true answer (locked 2))
unfolding flatten
on_response-Settled_example =
    on_response-Settled writer event 20 true connecting-no_crash answer (locked 2) (tt, (tt, tt))

send_message_lem_example :
    Delivered writer event 20 false "a" none 0
      (locked 2)
      (send writer event 20 false 10 (message "a") (locked 2))
send_message_lem_example =
    (send_message_lem writer event 20 false "a" 2 (locked 2) 0
        (retry 100, 1, 1, refl, refl, (retry 100, 0, 0, refl, refl, refl))).0
      0 none (omega arith) refl
