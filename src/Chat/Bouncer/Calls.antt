-- ===== src/Chat/Bouncer/Calls.antt =====
-- The contract of the bouncer's calls.
use tillerinobot.Prelude.{
  ℕ, ◌+◌, ◌%◌, ◌^◌, ◌≡◌, ◌≢◌, ◌↔◌, Bool, true, false, none, some, arith, String, str_eq, eq_iff,
  if◌then◌else◌, ◌==◌, ◌&&◌,
}
use tillerinobot.Chat.Bouncer.{SemaphorePayload, Bouncer, get, try_enter, exit}

-- `tryEnter` succeeds exactly if the user's lock is free, and then the lock holds the new event
-- with no attempts and no warning. If the lock is taken, it keeps its event, its time and its
-- warning, and counts the attempt in 32 bits. The locks of other users do not change.
pub try_enter_lem :
    (nick : String) (id now : ℕ) (b : Bouncer)
    → (((try_enter nick id now b).1 ≡ true) ↔ (get nick b ≡ none))
      × (get nick b ≡ none
          → get nick (try_enter nick id now b).0
            ≡ some (record {
              event_id = id;
              entered_time = now;
              attempts_since_entered = 0;
              warning_sent = false;
            }))
      × ((p : SemaphorePayload)
          → get nick b ≡ some p
          → get nick (try_enter nick id now b).0
            ≡ some (record p { attempts_since_entered = (p.attempts_since_entered + 1) % 2 ^ 32 }))
      × ((n : String) → n ≢ nick → get n (try_enter nick id now b).0 ≡ get n b)
unfolding get try_enter
try_enter_lem nick id now b = (
  ground arith,
  λ e. ground (arith, eq_iff nick nick),
  λ p e. ground (arith, eq_iff nick nick),
  λ n h. ground (arith, eq_iff nick n),
)

-- Whether the user's lock is held for the event `id`.
unfoldable pub is_held_for : String → ℕ → Bouncer → Bool
unfolding get
is_held_for nick id b = elim (get nick b) [ none ↦ false | some p ↦ p.event_id == id ]

-- `exit` reports whether the lock was held for that event. It frees the lock then, and only then:
-- a stale exit and the locks of other users leave everything as it was.
pub exit_lem :
    (nick n : String) (id : ℕ) (b : Bouncer)
    → ((exit nick id b).1 ≡ is_held_for nick id b)
      × (get n (exit nick id b).0
          ≡ (if is_held_for nick id b && str_eq nick n then none else get n b))
unfolding get exit is_held_for
exit_lem nick n id b = (ground arith, ground (arith, eq_iff nick n))

-- Entering a free lock and leaving again restores every lock.
pub exit-try_enter :
    (nick n : String) (id now : ℕ) (b : Bouncer)
    → get nick b ≡ none
    → ((exit nick id (try_enter nick id now b).0).1 ≡ true)
      × (get n (exit nick id (try_enter nick id now b).0).0 ≡ get n b)
unfolding get exit try_enter
exit-try_enter nick n id now b e =
    (ground (arith, eq_iff nick nick), ground (arith, eq_iff nick n, eq_iff nick nick))
