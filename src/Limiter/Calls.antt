-- ===== src/Limiter/Calls.antt =====
-- Which permit `limitRate` takes, and when it blocks.
use tillerinobot.Prelude.{
  ℕ, suc, ◌-◌, ◌<◌, ◌≡◌, ◌≢◌, refl, ◌↔◌, inl, inr, none, arith, List, [], ◌∷◌, zero, get_elem?,
  length, subst, ◌⊎◌,
}
use tillerinobot.Limiter.{
  Level, Limiter, maintenance, passed, blocks, wait_at, limit_rate, blocked_time,
  set_thread_priority, clear_thread_priority,
}
use tillerinobot.Limiter.Permits.{TakenLast, Drained, poll_down_cases}

-- The permits that `limitRate` took: one of the least urgent queue that had any.
pub record Served (thread : ℕ) (l l' : Limiter) : Type 0 where
  pub taken : TakenLast (l.thread_priority thread) (suc maintenance) l.permits l'.permits
  pub same_priority : l'.thread_priority ≡ l.thread_priority
  pub same_blocked : l'.blocked ≡ l.blocked

passed-injective : {l l' : Limiter} → passed l ≡ passed l' → l ≡ l'
passed-injective e = cc

wait_at-ne-passed : (p : ℕ) (qs : List Level) (l : Limiter) → wait_at p qs ≢ passed l
wait_at-ne-passed p qs l e = ground arith

wait_at-in_bounds : (p : ℕ) (qs : List Level) → get_elem? qs p ≢ none → wait_at p qs ≡ blocks p
wait_at-in_bounds p qs h = ground arith

get_elem?-some : (p : ℕ) (qs : List Level) → p < length qs → get_elem? qs p ≢ none
get_elem?-some p [] h e = elim h [ ]
get_elem?-some zero (q ∷ qs) h e = cc
get_elem?-some (suc p) (q ∷ qs) h e = get_elem?-some p qs (omega arith) e

-- The queues that a thread of priority `p` may poll.
abbrev pub Starved : ℕ → Limiter → Type 0
Starved p l = Drained p (suc maintenance) l.permits

pub limit_rate_cases :
    (thread : ℕ) (l : Limiter)
    → ((limit_rate thread l ≡ wait_at (l.thread_priority thread) l.permits)
        × Starved (l.thread_priority thread) l)
      ⊎ ((l' : Limiter) × (limit_rate thread l ≡ passed l') × Served thread l l')
unfolding limit_rate
limit_rate_cases thread l =
    elim (poll_down_cases (suc maintenance - l.thread_priority thread) (l.thread_priority thread)
      l.permits) [
        | inl (e, d) ↦ inl (rw (e, limit_rate), λ j a b. d j a (omega arith))
        | inr (rs, e, t) ↦ inr (
          record l { permits = rs },
          rw (e, limit_rate),
          record {
            taken = record {
              queue = t.queue;
              from = t.from;
              below = omega (arith, t.below, t.from);
              taken = t.taken;
              later_empty = λ j a b. t.later_empty j a (omega (arith, t.from));
            };
            same_priority = refl;
            same_blocked = refl;
          },
        )
      ]

-- If `limitRate` returns without blocking, it has taken one permit, of the least urgent queue that
-- the thread's priority allows and that holds one; every other queue is as before, and so are the
-- thread-local values.
pub limit_rate-Served :
    (thread : ℕ) (l l' : Limiter) → limit_rate thread l ≡ passed l' → Served thread l l'
limit_rate-Served thread l l' e = elim (limit_rate_cases thread l) [
  | inl (w, _) ↦ absurd (wait_at-ne-passed (l.thread_priority thread) l.permits l' (cc))
  | inr (r, e', s) ↦ subst (Served thread l) (passed-injective (cc)) s
]

-- With a priority in bounds, `limitRate` blocks at the thread's own priority exactly when that
-- queue and all less urgent ones are empty, whatever the more urgent ones hold.
pub limit_rate_blocks_iff :
    (thread : ℕ) (l : Limiter)
    → l.thread_priority thread < length l.permits
    → (limit_rate thread l ≡ blocks (l.thread_priority thread))
      ↔ Starved (l.thread_priority thread) l
limit_rate_blocks_iff thread l h = elim (limit_rate_cases thread l) [
  | inl (w, d) ↦ (λ _. d, λ _. rw w (wait_at-in_bounds _ l.permits (get_elem?-some _ l.permits h)))
  | inr (r, e, s) ↦ (
    λ b. cc,
    λ d. absurd (omega (arith, s.taken.taken.here, d s.taken.queue s.taken.from s.taken.below)),
  )
]

pub blocked_time_lem : (thread : ℕ) (l : Limiter) → (blocked_time thread l).0 ≡ l.blocked thread
unfolding blocked_time
blocked_time_lem thread l = refl

-- Behind `clearThreadPriority` and `blockedTime`, nothing is left of the thread's request.
pub clear_thread_priority_lem :
    (thread : ℕ) (l : Limiter)
    → ((blocked_time thread (clear_thread_priority thread l)).1.thread_priority thread
        ≡ maintenance)
      × ((blocked_time thread (clear_thread_priority thread l)).1.blocked thread ≡ 0)
unfolding blocked_time clear_thread_priority
clear_thread_priority_lem thread l = (ground arith, ground arith)

pub set_thread_priority_lem :
    (thread priority : ℕ) (l : Limiter)
    → ((blocked_time thread (set_thread_priority thread priority l)).1.thread_priority thread
        ≡ priority)
      × ((blocked_time thread (set_thread_priority thread priority l)).1.blocked thread ≡ 0)
unfolding blocked_time set_thread_priority
set_thread_priority_lem thread priority l = (ground arith, ground arith)
