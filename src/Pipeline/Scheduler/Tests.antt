-- ===== src/Pipeline/Scheduler/Tests.antt =====
-- A pool whose threads are busy for some rounds; one of them takes the task from the queue then.
use tillerinobot.Prelude.{ℕ, zero, suc, ◌≡◌, ◌≢◌, refl, false, List, [], ◌∷◌, ◌++◌, arith, inr}
use tillerinobot.Pipeline.Scheduler.{
  Offered, taken, not_taken, ThreadPool, running, handed_over, on_event,
}
use tillerinobot.Pipeline.Scheduler.Ends.{Accepts, OfferKeeps, Settled, on_event_ends}

abbrev offer_to : ℕ → ℕ × List ℕ → Offered × (ℕ × List ℕ)
offer_to task (zero, tasks) = (taken, (zero, tasks ++ task ∷ []))
offer_to task (suc n, tasks) = (not_taken, (n, tasks))

abbrev busy : ThreadPool ℕ
busy = record {
  World = ℕ × List ℕ;
  submit = λ task w. (false, w);
  is_shutdown = λ w. false;
  offer = offer_to;
}

abbrev tasks_of : ℕ × List ℕ → List ℕ
tasks_of w = w.1

busy-Accepts : Accepts busy tasks_of
busy-Accepts = record { by_submit = λ task w. refl; by_offer = keeps }
  where
    keeps : (task : ℕ) (w : ℕ × List ℕ) → OfferKeeps busy tasks_of task w (offer_to task w)
    keeps task (zero, tasks) = refl
    keeps task (suc n, tasks) = refl

on_event_third : on_event busy 9 7 (2, 5 ∷ []) ≡ (handed_over, (0, 5 ∷ 7 ∷ []))
unfolding on_event
on_event_third = refl

on_event_ends_example :
    ((on_event busy 9 7 (2, 5 ∷ [])).0 ≢ running)
    × (on_event busy 9 7 (2, 5 ∷ []) ≡ on_event busy 3 7 (2, 5 ∷ []))
    × Settled busy tasks_of 7 (2, 5 ∷ []) (on_event busy 9 7 (2, 5 ∷ []))
on_event_ends_example =
    on_event_ends busy tasks_of busy-Accepts 2 9 7 (2, 5 ∷ []) (omega arith) (inr (inr cc))
