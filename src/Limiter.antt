-- ===== src/Limiter.antt =====
-- tillerinobot/src/main/java/tillerino/tillerinobot/RateLimiter.java: permits in three bounded
-- queues, one for each priority, and the two thread-local values. A queue of permits is its size
-- and capacity, since the permits are one and the same object. Threads are numbers; the clock is
-- an argument. Priorities are natural numbers.
pub mod Permits
pub mod Calls
pub mod Runs
mod Tests
use tillerinobot.Prelude.{
  ℕ, zero, suc, ◌+◌, ◌-◌, ◌≡◌, List, [], ◌∷◌, Option, none, some, map, if◌then◌else◌, ltb, ◌==◌,
  get_elem?, set,
}

-- An `ArrayBlockingQueue`.
pub record Level : Type 0 where
  pub size : ℕ
  pub capacity : ℕ

pub record Limiter : Type 0 where
  pub permits : List Level
  pub thread_priority : ℕ → ℕ
  pub blocked : ℕ → ℕ

abbrev pub request : ℕ
request = 0

abbrev pub event : ℕ
event = 1

abbrev pub maintenance : ℕ
maintenance = 2

abbrev pub level : ℕ → Level
level n = record { size = 0; capacity = n }

pub initial : Limiter
initial = record {
  permits = level 50 ∷ level 50 ∷ level 100 ∷ [];
  thread_priority = λ _. maintenance;
  blocked = λ _. 0;
}

-- `ThreadLocal.set` in one thread.
abbrev pub update : (ℕ → ℕ) → ℕ → ℕ → ℕ → ℕ
update f thread v t = if t == thread then v else f t

unfoldable pub set_thread_priority : ℕ → ℕ → Limiter → Limiter
set_thread_priority thread priority l = record l {
  thread_priority = update l.thread_priority thread priority;
}

pub clear_thread_priority : ℕ → Limiter → Limiter
clear_thread_priority thread l = record l {
  thread_priority = update l.thread_priority thread maintenance;
}

-- `blockedTime()` returns the thread's time and clears it.
unfoldable pub blocked_time : ℕ → Limiter → ℕ × Limiter
blocked_time thread l = (l.blocked thread, record l { blocked = update l.blocked thread 0 })

-- `BlockingQueue.offer` and `poll` of one queue.
pub offer : Level → Option Level
offer q = if ltb q.size q.capacity then some (record q { size = q.size + 1 }) else none

pub poll_level : Level → Option Level
poll_level q = if q.size == 0 then none else some (record q { size = q.size - 1 })

-- `offer` of one of the queues.
pub offer_at : ℕ → List Level → Option (List Level)
offer_at i [] = none
offer_at zero (q ∷ qs) = elim (offer q) [ some q' ↦ some (q' ∷ qs) | none ↦ none ]
offer_at (suc i) (q ∷ qs) = elim (offer_at i qs) [ some qs' ↦ some (q ∷ qs') | none ↦ none ]

-- The loop of `addPermit`: the first queue that has room takes the permit.
pub add_first : List Level → List Level
add_first [] = []
add_first (q ∷ qs) = elim (offer q) [ some q' ↦ q' ∷ qs | none ↦ q ∷ add_first qs ]

pub add_permit : Limiter → Limiter
add_permit l = record l { permits = add_first l.permits }

-- `permits.get(i).poll()`.
pub poll : ℕ → List Level → Option (List Level)
poll i [] = none
poll zero (q ∷ qs) = elim (poll_level q) [ some q' ↦ some (q' ∷ qs) | none ↦ none ]
poll (suc i) (q ∷ qs) = elim (poll i qs) [ some qs' ↦ some (q ∷ qs') | none ↦ none ]

-- The loop of `limitRate` over `i = priority + k - 1` down to `priority`.
pub poll_down : ℕ → ℕ → List Level → Option (List Level)
poll_down zero priority qs = none
poll_down (suc k) priority qs = elim (poll (priority + k) qs) [
  | some qs' ↦ some qs'
  | none ↦ poll_down k priority qs
]

pub data Outcome : Type 0 where
  -- a permit was taken
  passed : Limiter → Outcome
  -- the thread blocks in `permits.get(priority).take()`
  blocks : ℕ → Outcome
  -- `permits.get` is out of bounds
  out_of_bounds : Outcome

abbrev pub wait_at : ℕ → List Level → Outcome
wait_at priority qs = elim (get_elem? qs priority) [
  | none ↦ out_of_bounds
  | some _ ↦ blocks priority
]

-- `limitRate` up to the return or to the call of `take`.
pub limit_rate : ℕ → Limiter → Outcome
limit_rate thread l =
    elim (poll_down (suc maintenance - l.thread_priority thread) (l.thread_priority thread)
      l.permits) [
        | some qs ↦ passed (record l { permits = qs })
        | none ↦ wait_at (l.thread_priority thread) l.permits
      ]

abbrev pub add_blocked : ℕ → ℕ → ℕ → Limiter → Limiter
add_blocked thread start now l = record l {
  blocked = update l.blocked thread (l.blocked thread + (now - start));
}

-- The rest of `limitRate` in a thread that blocked at `priority` since `start`: `take` returns
-- once the queue holds a permit (`none` while it does not), and the `finally` block runs.
pub unblock : ℕ → ℕ → ℕ → ℕ → Limiter → Option Limiter
unblock thread priority start now l = elim (poll priority l.permits) [
  | none ↦ none
  | some qs ↦ some (add_blocked thread start now (record l { permits = qs }))
]

-- The same when `take` is interrupted: no permit is taken.
pub interrupt : ℕ → ℕ → ℕ → Limiter → Limiter
interrupt thread start now l = add_blocked thread start now l

pub get_permit_count : Limiter → List ℕ
get_permit_count l = map (λ (q : Level). q.size) l.permits
