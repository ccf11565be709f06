-- ===== src/Pipeline/Release.antt =====
-- When the lock of a message's user is given back.
use tillerinobot.Prelude.{
  ℕ, ◌≡◌, Bool, true, false, none, some, List, ◌∷◌, if◌then◌else◌, arith, All, ap, ◌∙◌, String,
  eq_iff,
}
use tillerinobot.Chat.Bouncer.{Bouncer, get, exit}
use tillerinobot.Chat.Bouncer.Calls.{is_held_for, exit_lem}
use tillerinobot.Chat.Response.{Response, flatten}
use tillerinobot.Chat.Response.Laws.{IsSingle}
use tillerinobot.Chat.Event.{GameChatEvent, is_interactive}
use tillerinobot.Chat.Preprocessor
use tillerinobot.Chat.Preprocessor.{Preprocessor}
use tillerinobot.Chat.Preprocessor.Warnings.{on_event_queues, run, held_by, run_one_warning}
use tillerinobot.Chat.Postprocessor.{Writer, Postprocessor, on_response}
use tillerinobot.Chat.Postprocessor.Delivery.{NeverCrashes, is_interrupted, on_response-Settled}
use tillerinobot.Bot.{ok, Bot, Services}
use tillerinobot.Bot.Messages.Keeping.{KeepsQueue}
use tillerinobot.Bot.Events
use tillerinobot.Bot.Events.{visit, begin_event}
use tillerinobot.Bot.Events.Endings.{queued_by, on_event-queue}

exit_held :
    (nick : String) (id : ℕ) (b : Bouncer)
    → held_by (get nick b) ≡ some id
    → get nick (exit nick id b).0 ≡ none
unfolding is_held_for
exit_held nick id b h = ground (arith, (exit_lem nick nick id b).1, eq_iff nick nick, h)

held_unless :
    (stopped : Bool) (nick : String) (id : ℕ) (b : Bouncer)
    → held_by (get nick b) ≡ some id
    → held_by (get nick (if stopped then b else (exit nick id b).0))
      ≡ (if stopped then some id else none)
held_unless true nick id b h = h
held_unless false nick id b h = ap held_by (exit_held nick id b h)

module _ (event : GameChatEvent) (now : ℕ) (s : Preprocessor)
    (interactive : is_interactive event ≡ true) (free : get event.nick s.bouncer ≡ none) where
  -- The lock is the event's, whatever other events come in.
  still_held :
      (others : List (GameChatEvent × ℕ))
      → held_by (get event.nick (run others (Preprocessor.on_event event now s)).bouncer)
        ≡ some event.event_id
  still_held others =
      (run_one_warning event.nick others (Preprocessor.on_event event now s) _
        (((on_event_queues event now s).1 interactive free).2)).1

  -- The lock behind the writing of a response.
  freed :
      (writer : Writer) (end : ℕ) (is_recommend : Bool) (response : Response)
      (p : Postprocessor writer)
      → NeverCrashes writer
      → All IsSingle (flatten response)
      → held_by (get event.nick p.bouncer) ≡ some event.event_id
      → held_by (get event.nick (on_response writer event end is_recommend response p).1.bouncer)
        ≡ (if is_interrupted (on_response writer event end is_recommend response p).0
            then some event.event_id
            else none)
  freed writer end is_recommend response p calm single held =
      let settled = on_response-Settled writer event end is_recommend calm response p single in
      ap (λ c. held_by (get event.nick c))
        (settled.lock
          ∙ ap
              (λ i.
                if is_interrupted (on_response writer event end is_recommend response p).0
                then p.bouncer
                else if i
                then (exit event.nick event.event_id p.bouncer).0
                else p.bouncer)
              interactive)
      ∙ held_unless (is_interrupted (on_response writer event end is_recommend response p).0)
          event.nick event.event_id p.bouncer held

  module _ {W : Type 0} (services : Services W) (keeps : KeepsQueue services)
      (others : List (GameChatEvent × ℕ)) (thread start : ℕ) (b b' : Bot W) where
    -- While the bouncer's cache keeps its references, and if nothing that the bot calls touches the
    -- queue of responses: a message or action of a user who is free is queued for the bot. If its
    -- visit ends in a response of single messages and actions, and the thread is not interrupted when
    -- it puts that into the queue, it is queued once and nothing else is. Writing it with a writer
    -- that throws nothing but `IOException`s frees the user again, whatever other events came in and
    -- whatever the writer answers, unless a sleep between two tries is interrupted, which leaves the
    -- lock with the event.
    pub on_event-releases :
        (response : Response) (writer : Writer) (end : ℕ) (is_recommend : Bool)
        (p : Postprocessor writer)
        → visit services event start (begin_event services thread event b) ≡ (ok response, b')
        → services.put_interrupted b'.world ≡ false
        → All IsSingle (flatten response)
        → NeverCrashes writer
        → p.bouncer ≡ (run others (Preprocessor.on_event event now s)).bouncer
        → ((Preprocessor.on_event event now s).queue ≡ event ∷ s.queue)
          × ((Events.on_event services thread start event b).1.queue
              ≡ record { response = response; event = event; blocked = b'.limiter.blocked thread }
                ∷ b.queue)
          × (held_by
                (get event.nick (on_response writer event end is_recommend response p).1.bouncer)
              ≡ (if is_interrupted (on_response writer event end is_recommend response p).0
                  then some event.event_id
                  else none))
    on_event-releases response writer end is_recommend p visited put single calm same = (
      ((on_event_queues event now s).1 interactive free).0,
      on_event-queue services keeps thread start event b
          ∙ ap (queued_by services thread event b.queue) visited
          ∙ ap
              (λ i.
                if i
                then b.queue
                else record {
                  response = response;
                  event = event;
                  blocked = b'.limiter.blocked thread;
                }
                  ∷ b.queue)
              put,
      freed writer end is_recommend response p calm single
          (ap (λ c. held_by (get event.nick c)) same ∙ still_held others),
    )
