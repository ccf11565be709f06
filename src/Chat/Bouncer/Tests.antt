-- ===== src/Chat/Bouncer/Tests.antt =====
-- The bouncer's theorems at concrete states.
use tillerinobot.Prelude.{◌≡◌, refl, true, false, none, some, [], ◌∷◌, str_eq, if◌then◌else◌}
use tillerinobot.Chat.Bouncer.{SemaphorePayload, Bouncer, get, try_enter, unlocked}
use tillerinobot.Chat.Bouncer.Runs.{System, Reach, here, next, enter, refuse, holders, Reach-Exact}

abbrev payload : SemaphorePayload
payload = record {
  event_id = 4;
  entered_time = 10;
  attempts_since_entered = 0;
  warning_sent = false;
}

abbrev locked : Bouncer
locked = record { per_user_lock = λ n. if str_eq "ann" n then some payload else none }

abbrev working : System
working = record { bouncer = locked; active = ("ann", 4) ∷ [] }

entered : (try_enter "ann" 4 10 unlocked).1 ≡ true
unfolding try_enter
entered = refl

refused : (try_enter "ann" 5 11 (try_enter "ann" 4 10 unlocked).0).1 ≡ false
unfolding try_enter
refused = refl

-- A second message while the first is worked on.
reached :
    Reach
      (record { bouncer = unlocked; active = [] })
      (record {
        bouncer = (try_enter "ann" 5 11 (try_enter "ann" 4 10 unlocked).0).0;
        active = ("ann", 4) ∷ [];
      })
reached = next (next here (enter "ann" 4 10 entered)) (refuse "ann" 5 11 refused)

Reach-Exact_example : holders "ann" (("ann", 4) ∷ []) ≡ 4 ∷ []
unfolding try_enter get
Reach-Exact_example = Reach-Exact reached "ann"
