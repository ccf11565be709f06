-- ===== src/Bot/Events/Endings.antt =====
-- How `onEvent` ends, and what it leaves.
use tillerinobot.Prelude.{
  ℕ, ◌≡◌, refl, true, false, List, ◌∷◌, if◌then◌else◌, ap, sym, subst, ◌∙◌, ◌⊎◌, inl, inr,
  Bool-cases, codes,
}
use tillerinobot.Exceptions.{Exception, interrupted}
use tillerinobot.Limiter
use tillerinobot.Limiter.Calls.{blocked_time_lem}
use tillerinobot.Chat.Response.{Response}
use tillerinobot.Chat.Event.{
  GameChatEvent, Kind, private_message, private_action, joined, sighted, is_interactive,
  kind_is_interactive,
}
use tillerinobot.Bot.{Outcome, ok, throws, Queued, Bot, M, bind, Services}
use tillerinobot.Bot.Messages.{is_caught}
use tillerinobot.Bot.Messages.Endings.{
  Uncaught, process_private_message-Uncaught, process_private_action-Uncaught,
}
use tillerinobot.Bot.Messages.Keeping.{Keeps, KeepsQueue}
use tillerinobot.Bot.Events.Keeping.{visit-Keeps, register_activity-Keeps}
use tillerinobot.Bot.Events.{
  visit, visit_kind, begin_event, end_event, put_response, send_response, after_visit, work, finish,
  on_event,
}

module _ {W : Type 0} (services : Services W) where
  -- The visit ended in a response, which is now queued before all that was in the queue.
  pub record Answered (thread : ℕ) (event : GameChatEvent) (x : Outcome Response × Bot W)
      (before queue : List Queued) : Type 0 where
    pub response : Response
    pub state : Bot W
    pub visited : x ≡ (ok response, state)
    pub put : services.put_interrupted state.world ≡ false
    pub queued :
        queue
        ≡ record { response = response; event = event; blocked = state.limiter.blocked thread }
          ∷ before

  -- The visit threw what the bot does not catch, and nothing is queued.
  pub record Dropped (x : Outcome Response × Bot W) (before queue : List Queued) : Type 0 where
    pub exception : Exception
    pub state : Bot W
    pub visited : x ≡ (throws exception, state)
    pub uncaught : is_caught exception ≡ false
    pub kept : queue ≡ before

  -- The visit ended in a response, but the thread was interrupted before that was in the queue.
  pub record Interrupted (x : Outcome Response × Bot W) (before queue : List Queued) : Type 0 where
    pub response : Response
    pub state : Bot W
    pub visited : x ≡ (ok response, state)
    pub not_put : services.put_interrupted state.world ≡ true
    pub kept : queue ≡ before

  visit_kind-Uncaught :
      (kind : Kind) (nick : List ℕ) (now : ℕ) (s : Bot W)
      → kind_is_interactive kind ≡ true
      → Uncaught (visit_kind services kind nick now s)
  unfolding visit_kind kind_is_interactive
  visit_kind-Uncaught (private_message text) nick now s h =
      process_private_message-Uncaught services nick (codes text) s
  visit_kind-Uncaught (private_action text) nick now s h =
      process_private_action-Uncaught services nick (codes text) s
  visit_kind-Uncaught joined nick now s h = cc
  visit_kind-Uncaught sighted nick now s h = cc

  visit-Uncaught :
      (event : GameChatEvent) (now : ℕ) (s : Bot W)
      → is_interactive event ≡ true
      → Uncaught (visit services event now s)
  unfolding visit is_interactive kind_is_interactive
  visit-Uncaught event now s h = visit_kind-Uncaught event.kind (codes event.nick) now s h

  -- The queue behind `sendResponse`, before which it was `before`.
  abbrev pub queue_with : ℕ → GameChatEvent → Response → Bot W → List Queued → List Queued
  queue_with thread event r s before =
      if services.put_interrupted s.world
      then before
      else record { response = r; event = event; blocked = s.limiter.blocked thread } ∷ before

  -- What is in the queue, before which it was `before`, when the visit ends like `x`.
  abbrev pub queued_by : ℕ → GameChatEvent → List Queued → Outcome Response × Bot W → List Queued
  queued_by thread event before (ok r, s) = queue_with thread event r s before
  queued_by thread event before (throws e, s) = before

  finish-end_event :
      (thread : ℕ) (x : Outcome (Unit {0}) × Bot W)
      → (finish services thread x).1 ≡ end_event services thread x.1
  unfolding finish
  finish-end_event thread (ok u, s) = refl
  finish-end_event thread (throws interrupted, s) = refl
  finish-end_event thread (throws e, s) = refl

  bind-queue :
      (x : Outcome (Unit {0}) × Bot W) (m : M W (Unit {0}))
      → Keeps m
      → (bind x (λ _. m)).1.queue ≡ x.1.queue
  bind-queue (ok a, s) m h = h.kept s
  bind-queue (throws e, s) m h = refl

  put_response-queue :
      (q : Queued) (s : Bot W)
      → (put_response services q s).1.queue
        ≡ (if services.put_interrupted s.world then s.queue else q ∷ s.queue)
  unfolding put_response
  put_response-queue q s = elim (Bool-cases (services.put_interrupted s.world)) [
    | inl c ↦ rw c refl
    | inr c ↦ rw c refl
  ]

  send_response-queue :
      (thread : ℕ) (event : GameChatEvent) (r : Response) (s : Bot W)
      → (send_response services thread event r s).1.queue ≡ queue_with thread event r s s.queue
  unfolding send_response
  send_response-queue thread event r s =
      put_response-queue _ _
      ∙ ap
          (λ n.
            if services.put_interrupted s.world
            then s.queue
            else record { response = r; event = event; blocked = n } ∷ s.queue)
          (blocked_time_lem thread s.limiter)

  after_visit-queue :
      KeepsQueue services
      → (thread : ℕ) (event : GameChatEvent) (before : List Queued) (x : Outcome Response × Bot W)
      → x.1.queue ≡ before
      → (bind x (after_visit services thread event)).1.queue ≡ queued_by thread event before x
  unfolding after_visit
  after_visit-queue k thread event before (ok r, s) e =
      bind-queue (send_response services thread event r s) _
        (register_activity-Keeps services k (codes event.nick) event.timestamp)
      ∙ send_response-queue thread event r s
      ∙ ap (queue_with thread event r s) e
  after_visit-queue k thread event before (throws x, s) e = e

  begin_event-queue :
      (thread : ℕ) (event : GameChatEvent) (s : Bot W)
      → (begin_event services thread event s).queue ≡ s.queue
  unfolding begin_event
  begin_event-queue thread event s = refl

  pub on_event-queue :
      KeepsQueue services
      → (thread now : ℕ) (event : GameChatEvent) (s : Bot W)
      → (on_event services thread now event s).1.queue
        ≡ queued_by thread event s.queue
            (visit services event now (begin_event services thread event s))
  unfolding on_event work end_event
  on_event-queue k thread now event s =
      ap (λ b. b.queue)
        (finish-end_event thread
          (work services thread now event (begin_event services thread event s)))
      ∙ after_visit-queue k thread event s.queue
          (visit services event now (begin_event services thread event s))
          ((visit-Keeps services k event now).kept (begin_event services thread event s)
            ∙ begin_event-queue thread event s)

  -- How an event was worked on from `s`, when the bot is left in `t`: in a state that differs from
  -- `s` in the rate limiter, with the priority of the event's kind and no blocked time.
  pub record Clean (thread now : ℕ) (event : GameChatEvent) (s t : Bot W) : Type 0 where
    pub from : Bot W
    pub priority :
        from.limiter.thread_priority thread
        ≡ (if is_interactive event then Limiter.request else Limiter.event)
    pub not_blocked : from.limiter.blocked thread ≡ 0
    pub same_queue : from.queue ≡ s.queue
    pub same_world : from.world ≡ s.world
    pub worked : t ≡ end_event services thread (work services thread now event from).1
    pub priority_after : t.limiter.thread_priority thread ≡ Limiter.maintenance
    pub not_blocked_after : t.limiter.blocked thread ≡ 0

  -- How a message or an action ends whose visit ends like `x`.
  abbrev pub Ends :
      ℕ → GameChatEvent → Outcome Response × Bot W → List Queued → List Queued → Type 0
  Ends thread event x before queue =
      Answered thread event x before queue ⊎ (Dropped x before queue ⊎ Interrupted x before queue)

  visit-cases :
      (thread : ℕ) (event : GameChatEvent) (before : List Queued) (x : Outcome Response × Bot W)
      → Uncaught x
      → Ends thread event x before (queued_by thread event before x)
  visit-cases thread event before (ok r, s) h =
      elim (Bool-cases (services.put_interrupted s.world)) [
        | inl c ↦ inr (
            inr (record { response = r; state = s; visited = refl; not_put = c; kept = rw c refl }))
        | inr c ↦
            inl (record { response = r; state = s; visited = refl; put = c; queued = rw c refl })
      ]
  visit-cases thread event before (throws e, s) h =
      inr (inl (record { exception = e; state = s; visited = refl; uncaught = h; kept = refl }))

  -- If nothing that the bot calls touches the queue of responses: every message and every action is
  -- answered exactly once, with the response of its visit and the time that it was blocked, unless
  -- the visit throws what no `catch` of the bot names, such as an interruption, or the thread is
  -- interrupted when it puts the response into the queue; then nothing is queued.
  pub on_event-Answered :
      KeepsQueue services
      → (thread now : ℕ) (event : GameChatEvent) (s : Bot W) → is_interactive event ≡ true
      → Ends thread event
          (visit services event now (begin_event services thread event s))
          s.queue
          (on_event services thread now event s).1.queue
  on_event-Answered k thread now event s h =
      let x = visit services event now (begin_event services thread event s) in
      subst (Ends thread event x s.queue) (sym (on_event-queue k thread now event s)) (
        visit-cases thread event s.queue x
          (visit-Uncaught event now (begin_event services thread event s) h))
