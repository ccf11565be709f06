-- ===== src/Pipeline/Scheduler.antt =====
-- `onEvent` of
-- tillerinobot/src/main/java/org/tillerino/ppaddict/chat/impl/MessageHandlerScheduler.java, up to
-- where a task is given to the thread pool. The pool, of Java, is a parameter. The phases that are
-- timed are left out. The task itself runs the bot, as in `Pipeline.Runs`.
pub mod Ends
mod Tests
use tillerinobot.Prelude.{
  ℕ, zero, suc, ◌+◌, Bool, true, false, if◌then◌else◌, List, [], ◌∷◌, ◌++◌, ◌≡◌,
}

-- What `offer` of the pool's queue answers within ten milliseconds.
pub data Offered : Type 0 where
  taken not_taken interrupted : Offered

-- What is used of ThreadPoolExecutor and its SynchronousQueue. `submit` is false for a
-- RejectedExecutionException.
pub record ThreadPool (Task : Type 0) : Type 1 where
  pub World : Type 0
  pub submit : Task → World → Bool × World
  pub is_shutdown : World → Bool
  pub offer : Task → World → Offered × World

-- How the loop ends; `running` if it makes more rounds than the fuel allows.
pub data End : Type 0 where
  handed_over interrupted_exception running : End

module _ {Task : Type 0} (pool : ThreadPool Task) where
  -- The rounds from the second one on are the last argument.
  abbrev pub after_offer : Offered × pool.World → (pool.World → End × pool.World) → End × pool.World
  after_offer (taken, w) again = (handed_over, w)
  after_offer (interrupted, w) again = (interrupted_exception, w)
  after_offer (not_taken, w) again = again w

  abbrev pub after_submit :
      Task → Bool × pool.World → (pool.World → End × pool.World) → End × pool.World
  after_submit task (true, w) again = (handed_over, w)
  after_submit task (false, w) again =
      if pool.is_shutdown w
      then (interrupted_exception, w)
      else after_offer (pool.offer task w) again

  unfoldable pub on_event : ℕ → Task → pool.World → End × pool.World
  on_event zero task w = (running, w)
  on_event (suc fuel) task w = after_submit task (pool.submit task w) (on_event fuel task)
