-- ===== src/Frontend/Countdown/Runs.antt =====
-- Runs of the countdown, with starts and closed dialogs in between.
use tillerinobot.Prelude.{
  ℕ, zero, suc, ◌+◌, ◌-◌, ◌≤◌, ◌<◌, ◌≡◌, refl, Bool, true, false, not, Option, none, some, List, [],
  ◌∷◌, if◌then◌else◌, ◌==◌, arith, ap, subst, ◌∙◌,
}
use tillerinobot.Frontend.Countdown.{
  Interval, Page, clear_interval, start_countdown, find, set_remaining, stop, callback, tick,
  set_dialog,
}

pub data Step (p : Page) : Page → Type 0 where
  start : (seconds : ℕ) → Step p (start_countdown seconds p)
  second : (id : ℕ) → Step p (tick id p)
  dialog : (b : Bool) → Step p (set_dialog b p)

pub data Reach (p : Page) : Page → Type 0 where
  here : Reach p p
  next : {q r : Page} → Reach p q → Step q r → Reach p r

-- The page's variable names the one interval that is alive, if any is.
abbrev pub Named : Option ℕ → List Interval → ℕ → Type 0
Named none alive n = alive ≡ []
Named (some id) [] n = ⊥
Named (some id) (t ∷ ts) n = (t.id ≡ id) × (ts ≡ []) × (t.id < n)

abbrev pub OnlyOne : Page → Type 0
OnlyOne p = Named p.current p.alive p.next_id

Named-parts : (c : Option ℕ) (ts : List Interval) (n : ℕ) → Named c ts n → clear_interval c ts ≡ []
unfolding clear_interval
Named-parts none ts n h = h
Named-parts (some id) [] n h = absurd h
Named-parts (some id) (t ∷ ts) n h = ground arith

Named-set :
    (c : Option ℕ) (ts : List Interval) (n id r : ℕ)
    → Named c ts n
    → Named c (set_remaining id r ts) n
Named-set none ts n id r h = rw h refl
Named-set (some c) [] n id r h = absurd h
Named-set (some c) (t ∷ ts) n id r h = ground arith

if-either {ℓ} : (P : Page → Type ℓ) (b : Bool) (p q : Page) → P p → P q → P (if b then p else q)
if-either P true p q x y = x
if-either P false p q x y = y

callback-OnlyOne : (id remaining : ℕ) (p : Page) → OnlyOne p → OnlyOne (callback id remaining p)
unfolding callback stop
callback-OnlyOne id remaining p h =
    let stopped = Named-parts p.current p.alive p.next_id h in
    if-either OnlyOne (not p.dialog_open) _ _ stopped (
      if-either OnlyOne (remaining - 1 == 0) _ _ stopped
        (Named-set p.current p.alive p.next_id id (remaining - 1) h))

Step-OnlyOne : {p q : Page} → Step p q → OnlyOne p → OnlyOne q
unfolding start_countdown tick set_dialog
Step-OnlyOne {p} (start seconds) h = (refl, Named-parts p.current p.alive p.next_id h, omega arith)
Step-OnlyOne {p} (second id) h = tick-OnlyOne (find id p.alive) refl
  where
    tick-OnlyOne : (r : Option ℕ) → find id p.alive ≡ r → OnlyOne (tick id p)
    tick-OnlyOne none e = rw (e, tick) h
    tick-OnlyOne (some r) e = rw (e, tick) (callback-OnlyOne id r p h)
Step-OnlyOne (dialog b) h = h

-- However often the countdown is started, ticks and is broken off by closing the dialog: at most
-- one interval is alive, and the page's variable names it.
pub Reach-OnlyOne : {p q : Page} → OnlyOne p → Reach p q → OnlyOne q
Reach-OnlyOne h here = h
Reach-OnlyOne h (next r st) = Step-OnlyOne st (Reach-OnlyOne h r)

-- The interval `id` is the one that runs, with `r` seconds to go, and the dialog is open.
pub record Running (id r : ℕ) (p : Page) : Type 0 where
  pub alive : p.alive ≡ record { id = id; remaining = r } ∷ []
  pub current : p.current ≡ some id
  pub open_dialog : p.dialog_open ≡ true

-- A second of a running countdown.
tick-Running :
    (id r : ℕ) (p : Page)
    → Running id (suc (suc r)) p
    → Running id (suc r) (tick id p)
      × ((tick id p).completed ≡ p.completed)
      × ((tick id p).shown ≡ suc r)
unfolding tick callback
tick-Running id r p h = (
  record {
    alive = ground (arith, h.alive);
    current = ground (arith, h.alive, h.current);
    open_dialog = ground (arith, h.alive);
  },
  ground (arith, h.alive, h.open_dialog),
  ground (arith, h.alive, h.open_dialog),
)

tick-last :
    (id r : ℕ) (p : Page)
    → r ≤ 1
    → Running id r p
    → ((tick id p).completed ≡ p.completed + 1)
      × ((tick id p).alive ≡ [])
      × ((tick id p).current ≡ none)
unfolding tick callback stop clear_interval
tick-last id r p le h = (
  ground (arith, h.alive, h.open_dialog),
  ground (arith, h.alive, h.open_dialog, h.current),
  ground (arith, h.alive, h.open_dialog),
)

pub ticks : ℕ → ℕ → Page → Page
ticks zero id p = p
ticks (suc k) id p = ticks k id (tick id p)

ticks-Running :
    (k r id : ℕ) (p : Page)
    → Running id (k + suc r) p
    → Running id (suc r) (ticks k id p) × ((ticks k id p).completed ≡ p.completed)
unfolding ticks
ticks-Running zero r id p h = (subst (λ n. Running id n p) (omega arith) h, refl)
ticks-Running (suc k) r id p h =
    let more : suc k + suc r ≡ suc (suc (k + r)) = omega arith in
    let (run, same, _) = tick-Running id (k + r) p (subst (λ n. Running id n p) more h) in
    let (later, kept) =
      ticks-Running k r id (tick id p) (subst (λ n. Running id n (tick id p)) (omega arith) run) in
    (later, kept ∙ same)

ticks-suc : (k id : ℕ) (p : Page) → ticks (suc k) id p ≡ tick id (ticks k id p)
unfolding ticks
ticks-suc zero id p = refl
ticks-suc (suc k) id p = ticks-suc k id (tick id p)

tick_closed :
    (id r : ℕ) (p : Page)
    → Running id r p
    → ((tick id (set_dialog false p)).alive ≡ [])
      × ((tick id (set_dialog false p)).completed ≡ p.completed)
unfolding tick callback stop clear_interval set_dialog
tick_closed id r p h = (ground (arith, h.alive, h.current), ground (arith, h.alive))

start-Running :
    (n : ℕ) (p : Page)
    → OnlyOne p
    → p.dialog_open ≡ true
    → Running p.next_id n (start_countdown n p) × ((start_countdown n p).completed ≡ p.completed)
unfolding start_countdown
start-Running n p h o = (
  record {
    alive =
        ap (◌∷◌ (record { id = p.next_id; remaining = n }))
          (Named-parts p.current p.alive p.next_id h);
    current = refl;
    open_dialog = o;
  },
  refl,
)

-- A countdown of `k + 1 + r` seconds on an open dialog, whatever countdown ran before: `k` seconds
-- do not complete it; if the dialog is closed then, the next second ends it without completing it;
-- and with `r` zero the next second completes it, exactly once, and leaves no interval alive.
pub countdown_lem :
    (k r : ℕ) (p : Page)
    → OnlyOne p
    → p.dialog_open ≡ true
    → let q = ticks k p.next_id (start_countdown (k + suc r) p) in
      (q.completed ≡ p.completed)
      × ((tick p.next_id (set_dialog false q)).alive ≡ [])
      × ((tick p.next_id (set_dialog false q)).completed ≡ p.completed)
      × (r ≡ 0
          → ((ticks (suc k) p.next_id (start_countdown (k + suc r) p)).completed ≡ p.completed + 1)
            × ((ticks (suc k) p.next_id (start_countdown (k + suc r) p)).alive ≡ []))
countdown_lem k r p h o =
    let (begun, none_yet) = start-Running (k + suc r) p h o in
    let (run, same) = ticks-Running k r p.next_id (start_countdown (k + suc r) p) begun in
    let (gone, kept) = tick_closed p.next_id (suc r) _ run in
    let none_done = same ∙ none_yet in
    (
      none_done,
      gone,
      kept ∙ none_done,
      λ z.
          let (done, empty, _) = tick-last p.next_id (suc r) _ (omega arith) run in
          rw (ticks-suc k p.next_id (start_countdown (k + suc r) p))
            (done ∙ ap (λ n. n + 1) none_done, empty),
    )
