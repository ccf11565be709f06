-- ===== src/Frontend/Countdown.antt =====
-- `startCountdown` of code.js: the countdown to a reload behind a saved setting. The intervals of
-- the page that are alive are a list; each has its own `remaining`. A callback runs when the page
-- ticks that interval. The seconds are a natural number.
pub mod Runs
mod Tests
use tillerinobot.Prelude.{
  ℕ, zero, suc, ◌+◌, ◌-◌, Bool, true, false, not, Option, none, some, List, [], ◌∷◌, if◌then◌else◌,
  ◌==◌,
}

pub record Interval : Type 0 where
  pub id : ℕ
  pub remaining : ℕ

pub record Page : Type 0 where
  -- `_countdownInterval`
  pub current : Option ℕ
  pub alive : List Interval
  -- the id that `setInterval` hands out next
  pub next_id : ℕ
  pub dialog_open : Bool
  -- the seconds in the text "Reloading in …"
  pub shown : ℕ
  -- the calls of `onComplete`
  pub completed : ℕ

abbrev pub without : ℕ → List Interval → List Interval
without id [] = []
without id (t ∷ ts) = if t.id == id then without id ts else t ∷ without id ts

-- `clearInterval`; null and undefined clear nothing.
clear_interval : Option ℕ → List Interval → List Interval
clear_interval none ts = ts
clear_interval (some id) ts = without id ts

pub start_countdown : ℕ → Page → Page
unfolding clear_interval
start_countdown seconds p = record p {
  alive = record { id = p.next_id; remaining = seconds } ∷ clear_interval p.current p.alive;
  current = some p.next_id;
  next_id = suc p.next_id;
  shown = seconds;
}

abbrev find : ℕ → List Interval → Option ℕ
find id [] = none
find id (t ∷ ts) = if t.id == id then some t.remaining else find id ts

abbrev pub set_remaining : ℕ → ℕ → List Interval → List Interval
set_remaining id r [] = []
set_remaining id r (t ∷ ts) =
    if t.id == id
    then record t { remaining = r } ∷ set_remaining id r ts
    else t ∷ set_remaining id r ts

stop : Page → Page
unfolding clear_interval
stop p = record p { alive = clear_interval p.current p.alive; current = none }

-- The callback of the interval `id`, with its `remaining`. `0 - 1` is below zero in the source and
-- zero here, and both end the countdown.
callback : ℕ → ℕ → Page → Page
unfolding stop
callback id remaining p =
    if not p.dialog_open
    then stop p
    else if remaining - 1 == 0
    then (let q = stop p in record q { completed = q.completed + 1 })
    else record p { alive = set_remaining id (remaining - 1) p.alive; shown = remaining - 1 }

-- A second has passed for the interval `id`, if it is alive.
pub tick : ℕ → Page → Page
unfolding callback
tick id p = elim (find id p.alive) [ none ↦ p | some remaining ↦ callback id remaining p ]

pub set_dialog : Bool → Page → Page
set_dialog b p = record p { dialog_open = b }
