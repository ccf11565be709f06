-- ===== src/Limiter/Tests.antt =====
-- Runs of the rate limiter, and its theorems at concrete states.
use tillerinobot.Prelude.{
  ◌+◌, ◌≤◌, ◌≡◌, refl, ◌↔◌, [], ◌∷◌, none, some, List, ℕ, arith, if◌then◌else◌, ◌==◌,
}
use tillerinobot.Limiter.{
  Level, level, offer_at, Limiter, request, maintenance, initial, set_thread_priority, blocked_time,
  add_permit, poll_down, passed, blocks, limit_rate, unblock, get_permit_count, poll, poll_level,
  add_first, offer,
}
use tillerinobot.Limiter.Calls.{Served, Starved, limit_rate-Served, limit_rate_blocks_iff}
use tillerinobot.Limiter.Runs
use tillerinobot.Limiter.Runs.{
  System, Reach, here, next, add_starts, offered, polled, set_polling, set_permits, start, Sound,
  burst_bound, granted-le-added,
}

limiter : Unit {0}
unfolding initial limit_rate poll_down poll poll_level add_permit add_first offer
    set_thread_priority unblock get_permit_count blocked_time
limiter = tt

-- One permit for requests, two for maintenance; thread 7 answers a request.
abbrev stocked : Limiter
stocked = record {
  permits =
      record { size = 1; capacity = 1 }
      ∷ record { size = 0; capacity = 5 }
      ∷ record { size = 2; capacity = 5 }
      ∷ [];
  thread_priority = λ t. if t == 7 then request else maintenance;
  blocked = λ _. 0;
}

abbrev served : Limiter
served = record stocked {
  permits =
      record { size = 1; capacity = 1 }
      ∷ record { size = 0; capacity = 5 }
      ∷ record { size = 1; capacity = 5 }
      ∷ [];
}

abbrev drained : Limiter
drained = record stocked {
  permits =
      record { size = 1; capacity = 1 }
      ∷ record { size = 0; capacity = 5 }
      ∷ record { size = 0; capacity = 5 }
      ∷ [];
}

limit_rate_test : limit_rate 7 stocked ≡ passed served
unfolding limiter
limit_rate_test = refl

blocks_test : limit_rate 1 drained ≡ blocks maintenance
unfolding limiter
blocks_test = refl

unblock_test : unblock 1 maintenance 10 25 drained ≡ none
unfolding limiter
unblock_test = refl

permit_count_test : get_permit_count (add_permit (add_permit initial)) ≡ 2 ∷ 0 ∷ 0 ∷ []
unfolding limiter
permit_count_test = refl

limit_rate-Served_example : Served 7 stocked served
unfolding limiter
limit_rate-Served_example = limit_rate-Served 7 stocked served refl

limit_rate_blocks_iff_example :
    (limit_rate 1 drained ≡ blocks maintenance) ↔ Starved maintenance drained
limit_rate_blocks_iff_example = limit_rate_blocks_iff 1 drained (omega arith)

-- After one `addPermit`, a thread that answers a request polls all queues and takes the permit, while
-- the next `addPermit` has found no full queue yet.
abbrev one_permit : List Level
one_permit = record { size = 1; capacity = 50 } ∷ level 50 ∷ level 100 ∷ []

abbrev asking : System
asking = record start {
  limiter = set_thread_priority 7 request (record start.limiter { permits = one_permit });
  added = 1;
}

asking_reached : Reach start asking
unfolding initial set_thread_priority offer_at offer
asking_reached =
    next (next (next here (add_starts refl)) (offered 0 one_permit refl refl))
      (Runs.prioritise 7 request)

abbrev adding : System
adding = record asking { adding = some 0 }

abbrev polls : ℕ → System → System
polls k s = record s { polling = set_polling s 7 (some (0, k)) }

abbrev empty_two : System
empty_two = polls 1 (polls 2 (polls 3 adding))

abbrev asked : System
asked = record empty_two {
  limiter = set_permits empty_two (level 50 ∷ level 50 ∷ level 100 ∷ []);
  polling = set_polling empty_two 7 none;
  granted = 1;
}

asked_reached : Reach asking asked
unfolding initial set_thread_priority poll poll_level
asked_reached =
    next {t = empty_two}
      (next {t = polls 2 (polls 3 adding)}
        (next {t = polls 3 adding}
          (next {t = adding} (next here (add_starts refl)) (Runs.calls 7 refl refl))
          (Runs.empty 7 0 2 refl refl))
        (Runs.empty 7 0 1 refl refl))
      (polled 7 0 0 (level 50 ∷ level 50 ∷ level 100 ∷ []) refl refl)

burst_bound_example : (1 + 1 ≤ 0 + 1 + 200) × Sound asked
burst_bound_example = burst_bound asking_reached asked_reached
