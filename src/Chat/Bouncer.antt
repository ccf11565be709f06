-- ===== src/Chat/Bouncer.antt =====
-- tillerinobot/src/main/java/org/tillerino/ppaddict/chat/impl/Bouncer.java. The cache of atomic
-- references is a function from nicks: a missing entry is a reference to null, `none`. That the
-- cache drops a reference that was not accessed for an hour is not modelled.
-- Each `updateAndGet` is one atomic step. An `int` that only counts is its bit pattern.
pub mod Runs
pub mod Calls
mod Tests
use tillerinobot.Prelude.{
  ℕ, ◌+◌, ◌%◌, ◌^◌, Bool, true, false, Option, none, some, String, if◌then◌else◌, ◌==◌, str_eq,
}

pub record SemaphorePayload : Type 0 where
  pub event_id : ℕ
  pub entered_time : ℕ
  pub attempts_since_entered : ℕ
  pub warning_sent : Bool

pub record Bouncer : Type 0 where
  pub per_user_lock : String → Option SemaphorePayload

unfoldable pub get : String → Bouncer → Option SemaphorePayload
get nick b = b.per_user_lock nick

abbrev pub put : String → Option SemaphorePayload → Bouncer → Bouncer
put nick v b = record { per_user_lock = λ n. if str_eq nick n then v else b.per_user_lock n }

-- The function that `tryEnter` hands to `updateAndGet`, and whether the payload is the new object.
unfoldable pub entering : ℕ → ℕ → Option SemaphorePayload → SemaphorePayload × Bool
entering event_id now (some p) =
    (record p { attempts_since_entered = (p.attempts_since_entered + 1) % 2 ^ 32 }, false)
entering event_id now none = (
  record {
    event_id = event_id;
    entered_time = now;
    attempts_since_entered = 0;
    warning_sent = false;
  },
  true,
)

unfoldable pub try_enter : String → ℕ → ℕ → Bouncer → Bouncer × Bool
unfolding entering
try_enter nick event_id now b =
    let (p, entered) = entering event_id now (b.per_user_lock nick) in
    (put nick (some p) b, entered)

-- The function that `updateIfPresent` hands to `updateAndGet`, and `changed`.
unfoldable pub updating :
    ℕ
    → (SemaphorePayload → Option SemaphorePayload)
    → Option SemaphorePayload
    → Option SemaphorePayload × Bool
updating event_id mapper none = (none, false)
updating event_id mapper (some p) =
    if p.event_id == event_id then (mapper p, true) else (some p, false)

unfoldable pub update_if_present :
    String → ℕ → (SemaphorePayload → Option SemaphorePayload) → Bouncer → Bouncer × Bool
unfolding updating
update_if_present nick event_id mapper b =
    let (v, changed) = updating event_id mapper (b.per_user_lock nick) in (put nick v b, changed)

unfoldable pub exit : String → ℕ → Bouncer → Bouncer × Bool
unfolding update_if_present
exit nick event_id b = update_if_present nick event_id (λ _. none) b

abbrev pub unlocked : Bouncer
unlocked = record { per_user_lock = λ _. none }
