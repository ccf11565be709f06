-- ===== src/Pipeline/Tests.antt =====
-- A message that is answered at once, and one whose visit is interrupted.
use tillerinobot.Prelude.{ℕ, ◌≡◌, refl, false, if◌then◌else◌, none, some, List, [], ◌∷◌}
use tillerinobot.Prelude.Int.{ℤ, pos}
use tillerinobot.Exceptions.{interrupted}
use tillerinobot.Limiter.{blocked_time, set_thread_priority}
use tillerinobot.Chat.Bouncer.{get, unlocked}
use tillerinobot.Pipeline.Runs.{outcome}
use tillerinobot.Chat.Response.{message, flatten}
use tillerinobot.Chat.Event.{GameChatEvent, is_interactive}
use tillerinobot.Chat.Preprocessor
use tillerinobot.Chat.Preprocessor.{Preprocessor}
use tillerinobot.Chat.Preprocessor.Warnings.{run, held_by}
use tillerinobot.Chat.Postprocessor
use tillerinobot.Chat.Postprocessor.{Writer, Postprocessor, on_response, Answer}
use tillerinobot.Chat.Postprocessor.Delivery.{NeverCrashes, is_interrupted}
use tillerinobot.Bot.{throws, Services, pure}
use tillerinobot.Bot.Messages.{process_private_message}
use tillerinobot.Bot.Events
use tillerinobot.Bot.Events.{visit, visit_kind, begin_event}
use tillerinobot.Bot.Sample.{services, seen, event, keeps_with}
use tillerinobot.Pipeline.Runs.{State, working, arrive, handle, write, outcome}
use tillerinobot.Pipeline.Release.{on_event-releases}
use tillerinobot.Bot.Messages.Keeping.{KeepsQueue, pure-Keeps}

abbrev idle : Preprocessor
idle = record { bouncer = unlocked; queue = []; responses = []; live_activity = [] }

-- The same user again, and another event of the same id.
abbrev others : List (GameChatEvent × ℕ)
others = (record event { event_id = 5 }, 20) ∷ (event, 30) ∷ []

abbrev fixing : Services ℤ
fixing = record services { fix_id = λ text. pure (some (message "fixed")) }

abbrev stopping : Services ℤ
stopping = record services { fix_id = λ text s. (throws interrupted, s) }

abbrev writer : Writer
writer = record {
  World = ℕ;
  message = λ msg nick n. (Postprocessor.ok none, n);
  action = λ msg nick n. (Postprocessor.ok none, n);
  sleep = λ millis n. (false, n);
}

writer-NeverCrashes : NeverCrashes writer
writer-NeverCrashes = record { messages = λ msg nick n e. cc; actions = λ msg nick n e. cc }

abbrev writing : Postprocessor writer
writing = record {
  bouncer = (run others (Preprocessor.on_event event 10 idle)).bouncer;
  world = 0;
  live_activity = [];
  last_sent_message = none;
  last_recommendation = none;
  slept = [];
}

fixing_keeps : KeepsQueue fixing
fixing_keeps = keeps_with (λ text. pure (some (message "fixed"))) (λ text. pure-Keeps)

on_event-releases_example :
    ((Preprocessor.on_event event 10 idle).queue ≡ event ∷ [])
    × ((Events.on_event fixing 3 15 event (seen (pos 13))).1.queue
        ≡ record { response = message "fixed"; event = event; blocked = 0 } ∷ [])
    × (held_by (get "ann" (on_response writer event 40 false (message "fixed") writing).1.bouncer)
        ≡ (if is_interrupted (on_response writer event 40 false (message "fixed") writing).0
            then some 4
            else none))
unfolding is_interactive visit visit_kind process_private_message begin_event get flatten
    blocked_time set_thread_priority
on_event-releases_example =
    on_event-releases event 10 idle refl refl fixing fixing_keeps others 3 15 (seen (pos 13)) _
      (message "fixed") writer 40 false writing refl refl (tt, tt) writer-NeverCrashes refl

abbrev start : State writer fixing
start = record {
  pre = idle;
  bot = seen (pos 13);
  post = record writing { bouncer = unlocked };
  flights = [];
}

abbrev arrived : State writer fixing
arrived = arrive writer fixing event 10 start

abbrev taken : State writer fixing
taken = record arrived { flights = (event, working) ∷ [] }

abbrev handled : State writer fixing
handled = handle writer fixing 3 15 event [] [] taken

-- The same user again, whose event is refused.
abbrev again : State writer fixing
again = arrive writer fixing (record event { event_id = 5 }) 20 handled

abbrev written : State writer fixing
written = write writer fixing event 30 false (message "fixed") [] [] again

-- The same with a visit that is interrupted.
abbrev calm_start : State writer stopping
calm_start = record {
  pre = idle;
  bot = seen (pos 13);
  post = record writing { bouncer = unlocked };
  flights = [];
}

abbrev visiting : State writer stopping
visiting = record (arrive writer stopping event 10 calm_start) { flights = (event, working) ∷ [] }

abbrev refused : State writer stopping
refused =
    arrive writer stopping (record event { event_id = 5 }) 20
      (handle writer stopping 3 15 event [] [] visiting)
