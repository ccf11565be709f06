-- ===== src/Limiter/Permits.antt =====
-- What one operation of the rate limiter does to the permit queues.
use tillerinobot.Prelude.{
  ltb, ℕ, zero, suc, ◌+◌, ◌-◌, ◌≤◌, ◌<◌, ◌≡◌, refl, ◌⊎◌, inl, inr, List, [], ◌∷◌, none, some, arith,
  All, ◌==◌, Bool-cases, ap, ◌≢◌, sym, ◌∙◌, ◌++◌,
}
use native.Mathlib.Decide.{ℕ_discrete}
use tillerinobot.Limiter.{
  offer_at, Level, Limiter, add_permit, offer, poll_level, add_first, poll, poll_down,
}

-- All permits that are waiting to be taken.
abbrev pub stored : List Level → ℕ
stored [] = 0
stored (q ∷ qs) = q.size + stored qs

abbrev pub room : List Level → ℕ
room [] = 0
room (q ∷ qs) = q.capacity + room qs

abbrev pub Fits : Level → Type 0
Fits q = q.size ≤ q.capacity

pub stored-le-room : (qs : List Level) → All Fits qs → stored qs ≤ room qs
stored-le-room [] h = omega arith
stored-le-room (q ∷ qs) h = omega (arith, stored-le-room qs h.1)

pub add_first-Fits : (qs : List Level) → All Fits qs → All Fits (add_first qs)
unfolding add_first offer
add_first-Fits [] h = tt
add_first-Fits (q ∷ qs) h = ground (arith, add_first-Fits qs h.1)

pub room-add_first : (qs : List Level) → room (add_first qs) ≡ room qs
unfolding add_first offer
room-add_first [] = refl
room-add_first (q ∷ qs) = ground (arith, room-add_first qs)

pub stored-add_first-le : (qs : List Level) → stored (add_first qs) ≤ stored qs + 1
unfolding add_first offer
stored-add_first-le [] = omega arith
stored-add_first-le (q ∷ qs) = ground (arith, stored-add_first-le qs)

abbrev pub IsFull : Level → Type 0
IsFull q = q.size ≡ q.capacity

add_first-room :
    (qs : List Level) (q : Level) (rest : List Level)
    → All IsFull qs
    → q.size < q.capacity
    → add_first (qs ++ q ∷ rest) ≡ qs ++ record q { size = q.size + 1 } ∷ rest
unfolding add_first offer
add_first-room [] q rest f h = ground arith
add_first-room (p ∷ qs) q rest f h = ground (arith, add_first-room qs q rest f.1 h)

add_first-full : (qs : List Level) → All IsFull qs → add_first qs ≡ qs
unfolding add_first offer
add_first-full [] f = refl
add_first-full (p ∷ qs) f = ground (arith, add_first-full qs f.1)

-- `addPermit` puts one permit into the first queue with room behind full ones, whatever follows,
-- and changes nothing if every queue is full; it leaves the thread-local values alone.
pub add_permit_first :
    (l : Limiter) (qs : List Level)
    → All IsFull qs
    → ((q : Level) (rest : List Level)
        → l.permits ≡ qs ++ q ∷ rest
        → q.size < q.capacity
        → add_permit l ≡ record l { permits = qs ++ record q { size = q.size + 1 } ∷ rest })
      × (l.permits ≡ qs → add_permit l ≡ l)
unfolding add_permit
add_permit_first l qs f = (
  λ q rest e h. ap (λ p. record l { permits = p }) (ap add_first e ∙ add_first-room qs q rest f h),
  λ e. ap (λ p. record l { permits = p }) (ap add_first e ∙ add_first-full qs f ∙ sym e),
)

abbrev pub size_at : ℕ → List Level → ℕ
size_at i [] = 0
size_at zero (q ∷ qs) = q.size
size_at (suc i) (q ∷ qs) = size_at i qs

-- `rs` is `qs` less one permit of queue `i`; the other queues are left as they are.
pub record Taken (i : ℕ) (qs rs : List Level) : Type 0 where
  pub here : size_at i qs ≡ size_at i rs + 1
  pub others : (j : ℕ) → j ≢ i → size_at j rs ≡ size_at j qs
  pub total : stored qs ≡ stored rs + 1
  pub rooms : room rs ≡ room qs
  pub fits : All Fits qs → All Fits rs

Taken-zero :
    (q : Level) (qs : List Level)
    → q.size ≢ 0
    → Taken 0 (q ∷ qs) (record q { size = q.size - 1 } ∷ qs)
Taken-zero q qs h = record {
  here = omega arith;
  others = elsewhere;
  total = omega arith;
  rooms = refl;
  fits = λ f. (omega arith, f.1);
}
  where
    elsewhere :
        (j : ℕ) → j ≢ 0 → size_at j (record q { size = q.size - 1 } ∷ qs) ≡ size_at j (q ∷ qs)
    elsewhere zero h = absurd (h refl)
    elsewhere (suc j) h = refl

Taken-suc :
    (i : ℕ) (q : Level) {qs rs : List Level} → Taken i qs rs → Taken (suc i) (q ∷ qs) (q ∷ rs)
Taken-suc i q {qs} {rs} t = record {
  here = t.here;
  others = kept;
  total = omega (arith, t.total);
  rooms = omega (arith, t.rooms);
  fits = λ f. (f.0, t.fits f.1);
}
  where
    kept : (j : ℕ) → j ≢ suc i → size_at j (q ∷ rs) ≡ size_at j (q ∷ qs)
    kept zero h = refl
    kept (suc j) h = t.others j (λ e. h (ap suc e))

-- A `poll` fails on an empty or missing queue, and otherwise takes one permit.
pub poll_cases :
    (i : ℕ) (qs : List Level)
    → ((poll i qs ≡ none) × (size_at i qs ≡ 0))
      ⊎ ((rs : List Level) × (poll i qs ≡ some rs) × Taken i qs rs)
unfolding poll poll_level
poll_cases i [] = inl (refl, refl)
poll_cases zero (q ∷ qs) = elim (Bool-cases (q.size == 0)) [
  | inl e ↦ inl (ground arith, ground arith)
  | inr e ↦ inr (record q { size = q.size - 1 } ∷ qs, ground arith, Taken-zero q qs (ground arith))
]
poll_cases (suc i) (q ∷ qs) = elim (poll_cases i qs) [
  | inl (e, z) ↦ inl (rw (e, poll), z)
  | inr (rs, e, t) ↦ inr (q ∷ rs, rw (e, poll), Taken-suc i q t)
]

-- `rs` is `qs` less one permit of the least urgent of the queues `lo`, …, `hi - 1` that hold one.
pub record TakenLast (lo hi : ℕ) (qs rs : List Level) : Type 0 where
  pub queue : ℕ
  pub from : lo ≤ queue
  pub below : queue < hi
  pub taken : Taken queue qs rs
  pub later_empty : (j : ℕ) → queue < j → j < hi → size_at j qs ≡ 0

-- The queues `lo`, …, `hi - 1` hold nothing.
abbrev pub Drained : ℕ → ℕ → List Level → Type 0
Drained lo hi qs = (j : ℕ) → lo ≤ j → j < hi → size_at j qs ≡ 0

abbrev PollsDown : ℕ → ℕ → List Level → Type 0
PollsDown k p qs =
    ((poll_down k p qs ≡ none) × Drained p (p + k) qs)
    ⊎ ((rs : List Level) × (poll_down k p qs ≡ some rs) × TakenLast p (p + k) qs rs)

poll_down_hit :
    (k p : ℕ) (qs : List Level) {rs : List Level}
    → poll (p + k) qs ≡ some rs
    → Taken (p + k) qs rs
    → PollsDown (suc k) p qs
unfolding poll_down
poll_down_hit k p qs {rs} e t = inr (
  rs,
  rw (e, poll_down),
  record {
    queue = p + k;
    from = omega arith;
    below = omega arith;
    taken = t;
    later_empty = λ j a b. absurd (omega arith);
  },
)

poll_down_miss :
    (k p : ℕ) (qs : List Level)
    → poll (p + k) qs ≡ none
    → size_at (p + k) qs ≡ 0
    → PollsDown k p qs
    → PollsDown (suc k) p qs
unfolding poll_down
poll_down_miss k p qs e z (inl (n, f)) = inl (
  rw (e, poll_down) n,
  λ j a b. elim (ℕ_discrete j (p + k)) [ yes same ↦ rw same z | no other ↦ f j a (omega arith) ],
)
poll_down_miss k p qs e z (inr (rs, s, t)) = inr (
  rs,
  rw (e, poll_down) s,
  record {
    queue = t.queue;
    from = t.from;
    below = omega (arith, t.below);
    taken = t.taken;
    later_empty = λ j a b. elim (ℕ_discrete j (p + k)) [
      | yes same ↦ rw same z
      | no other ↦ t.later_empty j a (omega arith)
    ];
  },
)

pub poll_down_cases : (k p : ℕ) (qs : List Level) → PollsDown k p qs
unfolding poll_down
poll_down_cases zero p qs = inl (refl, λ j a b. absurd (omega arith))
poll_down_cases (suc k) p qs = elim (poll_cases (p + k) qs) [
  | inl (e, z) ↦ poll_down_miss k p qs e z (poll_down_cases k p qs)
  | inr (rs, e, t) ↦ poll_down_hit k p qs e t
]

-- `rs` is `qs` with one permit more, within the capacities.
pub record Added (qs rs : List Level) : Type 0 where
  pub total : stored rs ≡ stored qs + 1
  pub rooms : room rs ≡ room qs
  pub fits : All Fits qs → All Fits rs

Added-zero :
    (q : Level) (qs : List Level)
    → q.size < q.capacity
    → Added (q ∷ qs) (record q { size = q.size + 1 } ∷ qs)
Added-zero q qs h = record { total = omega arith; rooms = refl; fits = λ f. (omega arith, f.1) }

Added-suc : (q : Level) {qs rs : List Level} → Added qs rs → Added (q ∷ qs) (q ∷ rs)
Added-suc q t = record {
  total = omega (arith, t.total);
  rooms = omega (arith, t.rooms);
  fits = λ f. (f.0, t.fits f.1);
}

-- An `offer` fails, or adds one permit.
pub offer_at_cases :
    (i : ℕ) (qs : List Level)
    → (offer_at i qs ≡ none) ⊎ ((rs : List Level) × (offer_at i qs ≡ some rs) × Added qs rs)
unfolding offer_at offer
offer_at_cases i [] = inl refl
offer_at_cases zero (q ∷ qs) = elim (Bool-cases (ltb q.size q.capacity)) [
  | inl e ↦ inr (record q { size = q.size + 1 } ∷ qs, ground arith, Added-zero q qs (ground arith))
  | inr e ↦ inl (ground arith)
]
offer_at_cases (suc i) (q ∷ qs) = elim (offer_at_cases i qs) [
  | inl e ↦ inl (rw (e, offer_at))
  | inr (rs, e, t) ↦ inr (q ∷ rs, rw (e, offer_at), Added-suc q t)
]
