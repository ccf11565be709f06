-- ===== src/Pipeline/Runs.antt =====
-- The parts at work together, on the messages of all users at once: the preprocessor, threads of the
-- bot, and the postprocessor, which share the bouncer. A thread takes an event from the queue and runs
-- the bot on it, whatever that throws: the task of
-- tillerinobot/src/main/java/org/tillerino/ppaddict/chat/impl/MessageHandlerScheduler.java. It handles
-- an event in one step. The cache of the bouncer keeps its references: no event is on its way for an
-- hour without an access to its lock.
use tillerinobot.Prelude.{
  ℕ, ◌≡◌, refl, Bool, true, ◌&&◌, Option, none, some, List, [], ◌∷◌, ◌++◌, String, if◌then◌else◌,
  arith, str_eq, All, ◌∙◌,
}
use tillerinobot.Chat.Bouncer.{SemaphorePayload, Bouncer, get}
use tillerinobot.Chat.Bouncer.Runs.{holder}
use tillerinobot.Chat.Response.{Response, flatten}
use tillerinobot.Chat.Response.Laws.{IsSingle}
use tillerinobot.Chat.Event.{GameChatEvent, is_interactive}
use tillerinobot.Bot.{Bot, Services, Queued}
use tillerinobot.Bot.Events
use tillerinobot.Chat.Preprocessor
use tillerinobot.Chat.Preprocessor.{Preprocessor}
use tillerinobot.Chat.Postprocessor.{Writer, Postprocessor, on_response}
use tillerinobot.Chat.Postprocessor.Delivery.{is_interrupted}

-- Where an event is: in the queue for the bot, with a thread of the bot, in the queue of responses, or
-- lost: because its visit threw what the bot does not catch, because the thread was interrupted
-- before its response was in the queue, or because a sleep between two tries to write it was.
pub data Stage : Type 0 where
  queued working lost : Stage
  answered : Response → Stage

abbrev pub queue_all : List GameChatEvent → List (GameChatEvent × Stage)
queue_all [] = []
queue_all (e ∷ es) = (e, queued) ∷ queue_all es

-- The ids of the messages and actions of a user that are on their way.
abbrev pub on_way : String → List (GameChatEvent × Stage) → List ℕ
on_way nick [] = []
on_way nick ((e, stage) ∷ flights) =
    if is_interactive e && str_eq nick e.nick
    then e.event_id ∷ on_way nick flights
    else on_way nick flights

-- What becomes of an event, by the responses that the bot has queued for it.
abbrev pub outcome : GameChatEvent → List Queued → GameChatEvent × Stage
outcome event [] = (event, lost)
outcome event (q ∷ qs) = (event, answered q.response)

module _ (writer : Writer) {W : Type 0} (services : Services W) where
  -- The bouncer is that of `pre`; what `pre` and `bot` queue is taken off into `flights`.
  pub record State : Type 0 where
    pub pre : Preprocessor
    pub bot : Bot W
    pub post : Postprocessor writer
    pub flights : List (GameChatEvent × Stage)

  abbrev pub arrive : GameChatEvent → ℕ → State → State
  arrive event now s =
      let p = Preprocessor.on_event event now (record s.pre { queue = [] }) in
      record s { pre = record p { queue = [] }; flights = queue_all p.queue ++ s.flights }

  abbrev pub handle :
      ℕ
      → ℕ
      → GameChatEvent
      → List (GameChatEvent × Stage)
      → List (GameChatEvent × Stage)
      → State
      → State
  handle thread now event before after s =
      let b = (Events.on_event services thread now event (record s.bot { queue = [] })).1 in
      record s {
        bot = record b { queue = [] };
        flights = before ++ (outcome event b.queue ∷ after);
      }

  abbrev pub write :
      GameChatEvent
      → ℕ
      → Bool
      → Response
      → List (GameChatEvent × Stage)
      → List (GameChatEvent × Stage)
      → State
      → State
  write event now is_recommend response before after s =
      let (ending, p) =
        on_response writer event now is_recommend response
          (record s.post { bouncer = s.pre.bouncer }) in
      record s {
        pre = record s.pre { bouncer = p.bouncer };
        post = p;
        flights =
            if is_interrupted ending then before ++ ((event, lost) ∷ after) else before ++ after;
      }

  -- An event comes in, is taken by a thread of the bot, is handled, and its response is written, if
  -- that is one of single messages and actions.
  pub data Step (s : State) : State → Type 0 where
    arrives : (event : GameChatEvent) (now : ℕ) → Step s (arrive event now s)
    takes :
        (before after : List (GameChatEvent × Stage)) (event : GameChatEvent)
        → s.flights ≡ before ++ ((event, queued) ∷ after)
        → Step s (record s { flights = before ++ ((event, working) ∷ after) })
    handles :
        (thread now : ℕ) (before after : List (GameChatEvent × Stage)) (event : GameChatEvent)
        → s.flights ≡ before ++ ((event, working) ∷ after)
        → Step s (handle thread now event before after s)
    writes :
        (before after : List (GameChatEvent × Stage)) (event : GameChatEvent) (response : Response)
        (now : ℕ) (is_recommend : Bool)
        → s.flights ≡ before ++ ((event, answered response) ∷ after)
        → All IsSingle (flatten response)
        → Step s (write event now is_recommend response before after s)

  pub data Reach (s : State) : State → Type 0 where
    here : Reach s s
    next : {t u : State} → Reach s t → Step t u → Reach s u

  -- The lock of each user names exactly the message or action of that user that is on its way.
  abbrev pub Tracked : State → Type 0
  Tracked s = (nick : String) → on_way nick s.flights ≡ holder (get nick s.pre.bouncer)

on_way-append :
    (nick : String) (xs ys : List (GameChatEvent × Stage))
    → on_way nick (xs ++ ys) ≡ on_way nick xs ++ on_way nick ys
on_way-append nick [] ys = refl
on_way-append nick ((e, stage) ∷ xs) ys = ground (arith, on_way-append nick xs ys)

pub on_way-own :
    (nick : String) (before after : List (GameChatEvent × Stage)) (e : GameChatEvent)
    (stage : Stage)
    → (is_interactive e && str_eq nick e.nick) ≡ true
    → on_way nick (before ++ ((e, stage) ∷ after))
      ≡ on_way nick before ++ (e.event_id ∷ on_way nick after)
on_way-own nick before after e stage h = on_way-append nick before ((e, stage) ∷ after) ∙ rw h

pub only_one :
    (xs ys : List ℕ) (i : ℕ) (p : Option SemaphorePayload)
    → xs ++ (i ∷ ys) ≡ holder p
    → (xs ++ ys ≡ []) × (holder p ≡ i ∷ [])
only_one [] ys i none h = ground arith
only_one [] ys i (some p) h = ground arith
only_one (x ∷ []) ys i none h = ground arith
only_one (x ∷ []) ys i (some p) h = ground arith
only_one (x ∷ y ∷ xs) ys i none h = ground arith
only_one (x ∷ y ∷ xs) ys i (some p) h = ground arith
