-- ===== src/Limiter/Runs.antt =====
-- Any interleaving of threads that call the rate limiter with the scheduled `addPermit`, of which
-- one runs at a time.
use tillerinobot.Prelude.{
  ℕ, suc, ◌+◌, ◌-◌, ◌≤◌, ◌<◌, ◌≡◌, refl, inl, inr, Option, none, some, some_injective, List, length,
  arith, All, subst, sym, ◌∙◌, ◌==◌, if◌then◌else◌,
}
use tillerinobot.Limiter.{
  Level, Limiter, initial, maintenance, set_thread_priority, clear_thread_priority, blocked_time,
  offer_at, poll, blocks, wait_at, unblock, interrupt,
}
use tillerinobot.Limiter.Permits.{
  Fits, stored, room, stored-le-room, Taken, poll_cases, Added, offer_at_cases,
}

-- The limiter with what the threads are at, and two counters of what has happened: the permits that
-- `addPermit` has put into a queue, and the calls of `limitRate` that went through.
pub record System : Type 0 where
  pub limiter : Limiter
  -- the threads in the loop of `limitRate`: their priority, and the queues that are left to poll
  pub polling : ℕ → Option (ℕ × ℕ)
  -- the threads that wait in `take`: their priority and start time
  pub waiting : ℕ → Option (ℕ × ℕ)
  -- the queue that the scheduled `addPermit` is at
  pub adding : Option ℕ
  pub added : ℕ
  pub granted : ℕ

abbrev pub at_thread : (ℕ → Option (ℕ × ℕ)) → ℕ → Option (ℕ × ℕ) → ℕ → Option (ℕ × ℕ)
at_thread f thread w t = if t == thread then w else f t

abbrev pub set_waiting : System → ℕ → Option (ℕ × ℕ) → ℕ → Option (ℕ × ℕ)
set_waiting s = at_thread s.waiting

abbrev pub set_polling : System → ℕ → Option (ℕ × ℕ) → ℕ → Option (ℕ × ℕ)
set_polling s = at_thread s.polling

abbrev pub set_permits : System → List Level → Limiter
set_permits s qs = record s.limiter { permits = qs }

-- Every `offer`, `poll` and `take` of one queue is a step.
pub data Step (s : System) : System → Type 0 where
  -- `addPermit` begins, adds to a queue, finds it full, and ends behind the last.
  add_starts : s.adding ≡ none → Step s (record s { adding = some 0 })
  offered :
      (i : ℕ) (qs : List Level)
      → s.adding ≡ some i
      → offer_at i s.limiter.permits ≡ some qs
      → Step s (record s { limiter = set_permits s qs; adding = none; added = s.added + 1 })
  full :
      (i : ℕ)
      → s.adding ≡ some i
      → i < length s.limiter.permits
      → offer_at i s.limiter.permits ≡ none
      → Step s (record s { adding = some (i + 1) })
  add_ends :
      (i : ℕ)
      → s.adding ≡ some i
      → length s.limiter.permits ≤ i
      → Step s (record s { adding = none })
  -- `limitRate` is called, gets a permit from a queue, finds it empty, and blocks behind the first.
  calls :
      (thread : ℕ)
      → s.polling thread ≡ none
      → s.waiting thread ≡ none
      → Step s (record s {
        polling = set_polling s thread (
            some (
              s.limiter.thread_priority thread,
              suc maintenance - s.limiter.thread_priority thread,
            ));
      })
  polled :
      (thread priority k : ℕ) (qs : List Level)
      → s.polling thread ≡ some (priority, suc k)
      → poll (priority + k) s.limiter.permits ≡ some qs
      → Step s (record s {
        limiter = set_permits s qs;
        polling = set_polling s thread none;
        granted = s.granted + 1;
      })
  empty :
      (thread priority k : ℕ)
      → s.polling thread ≡ some (priority, suc k)
      → poll (priority + k) s.limiter.permits ≡ none
      → Step s (record s { polling = set_polling s thread (some (priority, k)) })
  block :
      (thread priority now : ℕ)
      → s.polling thread ≡ some (priority, 0)
      → wait_at priority s.limiter.permits ≡ blocks priority
      → Step s (record s {
        polling = set_polling s thread none;
        waiting = set_waiting s thread (some (priority, now));
      })
  wake :
      (thread priority start now : ℕ) (l : Limiter)
      → s.waiting thread ≡ some (priority, start)
      → unblock thread priority start now s.limiter ≡ some l
      → Step s
          (record s { limiter = l; waiting = set_waiting s thread none; granted = s.granted + 1 })
  stop :
      (thread priority start now : ℕ)
      → s.waiting thread ≡ some (priority, start)
      → Step s (record s {
        limiter = interrupt thread start now s.limiter;
        waiting = set_waiting s thread none;
      })
  prioritise :
      (thread priority : ℕ)
      → Step s (record s { limiter = set_thread_priority thread priority s.limiter })
  clear : (thread : ℕ) → Step s (record s { limiter = clear_thread_priority thread s.limiter })
  read_blocked : (thread : ℕ) → Step s (record s { limiter = (blocked_time thread s.limiter).1 })

pub data Reach (s : System) : System → Type 0 where
  here : Reach s s
  next : {t u : System} → Reach s t → Step t u → Reach s u

abbrev pub start : System
start = record {
  limiter = initial;
  polling = λ _. none;
  waiting = λ _. none;
  adding = none;
  added = 0;
  granted = 0;
}

-- No queue holds more than its capacity, and the capacities are those of the constructor.
pub record Sound (s : System) : Type 0 where
  pub fits : All Fits s.limiter.permits
  pub rooms : room s.limiter.permits ≡ 200

-- Permits are conserved: what a step grants is taken from what is stored, and what it stores was
-- added.
pub record Conserves (s t : System) : Type 0 where
  pub balance :
      stored t.limiter.permits + t.granted + s.added
      ≤ stored s.limiter.permits + s.granted + t.added
  pub sound : Sound t

unblock-Taken :
    (thread priority start now : ℕ) (l l' : Limiter)
    → unblock thread priority start now l ≡ some l'
    → Taken priority l.permits l'.permits
unfolding unblock
unblock-Taken thread priority start now l l' e = elim (poll_cases priority l.permits) [
  | inl (n, _) ↦ absurd (ground arith)
  | inr (rs, p, t) ↦ subst (Taken priority l.permits) (ground arith) t
]

Taken-Conserves :
    {i : ℕ} {s : System} (l : Limiter) (p w : ℕ → Option (ℕ × ℕ))
    → Taken i s.limiter.permits l.permits
    → Sound s
    → Conserves s (record s { limiter = l; polling = p; waiting = w; granted = s.granted + 1 })
Taken-Conserves l p w t v = record {
  balance = omega (arith, t.total);
  sound = record { fits = t.fits v.fits; rooms = omega (arith, t.rooms, v.rooms) };
}

poll-Taken : (i : ℕ) (qs rs : List Level) → poll i qs ≡ some rs → Taken i qs rs
poll-Taken i qs rs e = elim (poll_cases i qs) [
  | inl (n, _) ↦ absurd (ground (arith, n, e))
  | inr (us, p, t) ↦ subst (Taken i qs) (some_injective (sym p ∙ e)) t
]

offer_at-Added : (i : ℕ) (qs rs : List Level) → offer_at i qs ≡ some rs → Added qs rs
offer_at-Added i qs rs e = elim (offer_at_cases i qs) [
  | inl n ↦ absurd (ground (arith, n, e))
  | inr (us, p, t) ↦ subst (Added qs) (some_injective (sym p ∙ e)) t
]

-- A step that leaves the queues and the counters alone.
unchanged-Conserves :
    {s t : System}
    → t.limiter.permits ≡ s.limiter.permits
    → t.granted ≡ s.granted
    → t.added ≡ s.added
    → Sound s
    → Conserves s t
unchanged-Conserves {s} {t} e g a v = record {
  balance = rw (e, g, a) (omega arith);
  sound = record { fits = rw e v.fits; rooms = rw e v.rooms };
}

Step-Conserves : {s t : System} → Step s t → Sound s → Conserves s t
unfolding set_thread_priority clear_thread_priority blocked_time interrupt
Step-Conserves (add_starts e) v = unchanged-Conserves refl refl refl v
Step-Conserves {s} (offered i qs e o) v =
    let t = offer_at-Added i s.limiter.permits qs o in
    record {
      balance = omega (arith, t.total);
      sound = record { fits = t.fits v.fits; rooms = t.rooms ∙ v.rooms };
    }
Step-Conserves (full i e l o) v = unchanged-Conserves refl refl refl v
Step-Conserves (add_ends i e l) v = unchanged-Conserves refl refl refl v
Step-Conserves (calls thread e w) v = unchanged-Conserves refl refl refl v
Step-Conserves {s} (polled thread priority k qs e o) v =
    Taken-Conserves (set_permits s qs) (set_polling s thread none) s.waiting
      (poll-Taken (priority + k) s.limiter.permits qs o) v
Step-Conserves (empty thread priority k e o) v = unchanged-Conserves refl refl refl v
Step-Conserves (block thread priority now e w) v = unchanged-Conserves refl refl refl v
Step-Conserves {s} (wake thread priority since now l w e) v =
    Taken-Conserves l s.polling (set_waiting s thread none)
      (unblock-Taken thread priority since now s.limiter l e) v
Step-Conserves (stop thread priority since now w) v = unchanged-Conserves refl refl refl v
Step-Conserves (prioritise thread priority) v = unchanged-Conserves refl refl refl v
Step-Conserves (clear thread) v = unchanged-Conserves refl refl refl v
Step-Conserves (read_blocked thread) v = unchanged-Conserves refl refl refl v

Reach-Conserves : {s t : System} → Reach s t → Sound s → Conserves s t
Reach-Conserves here v = record { balance = omega arith; sound = v }
Reach-Conserves (next r st) v =
    let before = Reach-Conserves r v in
    let after = Step-Conserves st before.sound in
    record { balance = omega (arith, before.balance, after.balance); sound = after.sound }

start-Sound : Sound start
unfolding initial
start-Sound = record { fits = omega arith; rooms = refl }

-- Whatever the threads do between two moments of a run, the calls of `limitRate` that go through
-- are at most 200 more than the permits that `addPermit` puts into the queues in between, and the
-- queues never hold more than their capacities.
pub burst_bound :
    {s t : System}
    → Reach start s
    → Reach s t
    → (t.granted + s.added ≤ s.granted + t.added + 200) × Sound t
burst_bound {s} r q =
    let begun = (Reach-Conserves r start-Sound).sound in
    let done = Reach-Conserves q begun in
    (
      omega (arith, done.balance, begun.rooms, stored-le-room s.limiter.permits begun.fits),
      done.sound,
    )

-- From the start no call goes through without a permit of its own that was added before.
pub granted-le-added : {s : System} → Reach start s → stored s.limiter.permits + s.granted ≤ s.added
unfolding initial
granted-le-added r = omega (arith, (Reach-Conserves r start-Sound).balance)
