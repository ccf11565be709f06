-- ===== src/Chat/Preprocessor/Tests.antt =====
-- A user who is impatient, and the preprocessor's theorems at that run.
use tillerinobot.Prelude.{
  ℕ, ◌+◌, ◌≤◌, ◌≡◌, refl, false, none, some, List, [], ◌∷◌, str_eq, if◌then◌else◌,
}
use tillerinobot.Chat.Bouncer.{SemaphorePayload, get, try_enter, update_if_present}
use tillerinobot.Chat.Response.{no_response}
use tillerinobot.Chat.Event.{GameChatEvent, private_message, sighted, is_interactive}
use tillerinobot.Chat.Preprocessor.{Preprocessor, on_event, many_message}
use tillerinobot.Chat.Preprocessor.Warnings.{run, warnings, held_by, run_one_warning}

abbrev event : ℕ → GameChatEvent
event id = record { event_id = id; nick = "ann"; timestamp = 0; kind = private_message "!r" }

abbrev seen : GameChatEvent
seen = record (event 9) { kind = sighted }

abbrev payload : SemaphorePayload
payload = record {
  event_id = 1;
  entered_time = 100;
  attempts_since_entered = 0;
  warning_sent = false;
}

abbrev held : Preprocessor
held = record {
  bouncer = record { per_user_lock = λ n. if str_eq "ann" n then some payload else none };
  queue = event 1 ∷ [];
  responses = [];
  live_activity = [];
}

abbrev history : List (GameChatEvent × ℕ)
history = (event 2, 101) ∷ (event 3, 102) ∷ (event 4, 103) ∷ (event 5, 104) ∷ (seen, 105) ∷ []

history_test :
    ((run history held).responses
      ≡ (no_response, event 5)
        ∷ (many_message, event 4)
        ∷ (no_response, event 3)
        ∷ (no_response, event 2)
        ∷ [])
    × ((run history held).queue ≡ seen ∷ event 1 ∷ [])
unfolding run on_event try_enter update_if_present get is_interactive
history_test = (refl, refl)

run_one_warning_example :
    (warnings "ann" (run history held).responses ≤ 0 + 1)
    × (held_by (get "ann" (run history held).bouncer) ≡ some 1)
unfolding get
run_one_warning_example = run_one_warning "ann" history held payload refl
