-- ===== src/Pipeline/Scheduler/Ends.antt =====
-- How giving a task to the pool ends, and that it does.
use tillerinobot.Prelude.{
  ℕ, zero, suc, ◌≡◌, ◌≢◌, ◌≤◌, ◌<◌, Bool, true, false, List, [], ◌∷◌, ◌++◌, refl, arith, ◌∙◌, ◌⊎◌,
  inl, inr, Bool-cases,
}
use tillerinobot.Pipeline.Scheduler.{
  Offered, taken, not_taken, interrupted, ThreadPool, End, handed_over, interrupted_exception,
  running, after_offer, after_submit, on_event,
}

module _ {Task : Type 0} (pool : ThreadPool Task) where
  -- The pool after a refused `submit`, and after a refused `offer` as well.
  abbrev pub refused : Task → pool.World → pool.World
  refused task w = (pool.submit task w).1

  abbrev pub passed : Task → pool.World → pool.World
  passed task w = (pool.offer task (refused task w)).1

  -- A round that decides: the pool accepts, is shut down, or anything but a time-out of the offer.
  abbrev pub Decides : Task → pool.World → Type 0
  Decides task w =
      ((pool.submit task w).0 ≡ true)
      ⊎ ((pool.is_shutdown (refused task w) ≡ true)
          ⊎ ((pool.offer task (refused task w)).0 ≢ not_taken))

  -- The pool after so many rounds that did not decide.
  abbrev pub rounds : ℕ → Task → pool.World → pool.World
  rounds zero task w = w
  rounds (suc n) task w = rounds n task (passed task w)

  after_offer_cases :
      (o : Offered × pool.World)
      → (o.0 ≢ not_taken)
        ⊎ ((again : pool.World → End × pool.World) → after_offer pool o again ≡ again o.1)
  after_offer_cases (taken, w) = inl cc
  after_offer_cases (interrupted, w) = inl cc
  after_offer_cases (not_taken, w) = inr (λ again. refl)

  after_submit_cases :
      (task : Task) (r : Bool × pool.World)
      → ((r.0 ≡ true) ⊎ ((pool.is_shutdown r.1 ≡ true) ⊎ ((pool.offer task r.1).0 ≢ not_taken)))
        ⊎ ((again : pool.World → End × pool.World)
            → after_submit pool task r again ≡ again (pool.offer task r.1).1)
  after_submit_cases task (true, w) = inl (inl refl)
  after_submit_cases task (false, w) = elim (Bool-cases (pool.is_shutdown w)) [
    | inl down ↦ inl (inr (inl down))
    | inr up ↦ elim (after_offer_cases (pool.offer task w)) [
      | inl decided ↦ inl (inr (inr decided))
      | inr again ↦ inr (λ f. rw up (again f))
    ]
  ]

  -- A round decides, or it goes on to the next.
  round_cases :
      (task : Task) (w : pool.World)
      → Decides task w
        ⊎ ((f : ℕ) → on_event pool (suc f) task w ≡ on_event pool f task (passed task w))
  unfolding on_event
  round_cases task w = elim (after_submit_cases task (pool.submit task w)) [
    | inl decided ↦ inl decided
    | inr again ↦ inr (λ f. again (on_event pool f task))
  ]

  on_event_last :
      (f f' : ℕ) (task : Task) (w : pool.World)
      → Decides task w
      → ((on_event pool (suc f) task w).0 ≢ running)
        × (on_event pool (suc f) task w ≡ on_event pool (suc f') task w)
  unfolding on_event
  on_event_last f f' task w d = go (pool.submit task w) d
    where
      offered :
          (o : Offered × pool.World)
          → o.0 ≢ not_taken
          → ((after_offer pool o (on_event pool f task)).0 ≢ running)
            × (after_offer pool o (on_event pool f task)
                ≡ after_offer pool o (on_event pool f' task))
      offered (taken, w) d = (cc, refl)
      offered (interrupted, w) d = (cc, refl)
      offered (not_taken, w) d = elim (d refl) [ ]

      go :
          (r : Bool × pool.World)
          → (r.0 ≡ true) ⊎ ((pool.is_shutdown r.1 ≡ true) ⊎ ((pool.offer task r.1).0 ≢ not_taken))
          → ((after_submit pool task r (on_event pool f task)).0 ≢ running)
            × (after_submit pool task r (on_event pool f task)
                ≡ after_submit pool task r (on_event pool f' task))
      go (true, w) d = (cc, refl)
      go (false, w) (inl d) = cc
      go (false, w) (inr (inl down)) = rw down (cc, refl)
      go (false, w) (inr (inr d)) = elim (Bool-cases (pool.is_shutdown w)) [
        | inl down ↦ rw down (cc, refl)
        | inr up ↦ rw up (offered (pool.offer task w) d)
      ]

  -- Enough fuel for the rounds that do not decide, or any more.
  on_event_stops :
      (n m : ℕ) (task : Task) (w : pool.World)
      → n ≤ m
      → Decides task (rounds n task w)
      → ((on_event pool (suc m) task w).0 ≢ running)
        × (on_event pool (suc m) task w ≡ on_event pool (suc n) task w)
  on_event_stops zero m task w h d = on_event_last m 0 task w d
  on_event_stops (suc n) zero task w h d = absurd (ground arith)
  on_event_stops (suc n) (suc m) task w h d = elim (round_cases task w) [
    | inl decided ↦ on_event_last (suc m) (suc n) task w decided
    | inr again ↦
        rw (again (suc m), again (suc n)) (on_event_stops n m task (passed task w) (omega arith) d)
  ]

  -- A call of the pool adds the task to those accepted exactly if it reports success.
  abbrev pub SubmitKeeps : (pool.World → List Task) → Task → pool.World → Bool × pool.World → Type 0
  SubmitKeeps accepted task w (true, w') = accepted w' ≡ accepted w ++ task ∷ []
  SubmitKeeps accepted task w (false, w') = accepted w' ≡ accepted w

  abbrev pub OfferKeeps :
      (pool.World → List Task) → Task → pool.World → Offered × pool.World → Type 0
  OfferKeeps accepted task w (taken, w') = accepted w' ≡ accepted w ++ task ∷ []
  OfferKeeps accepted task w (not_taken, w') = accepted w' ≡ accepted w
  OfferKeeps accepted task w (interrupted, w') = accepted w' ≡ accepted w

  pub record Accepts (accepted : pool.World → List Task) : Type 0 where
    pub by_submit :
        (task : Task) (w : pool.World) → SubmitKeeps accepted task w (pool.submit task w)
    pub by_offer : (task : Task) (w : pool.World) → OfferKeeps accepted task w (pool.offer task w)

  -- With the task handed over once, or not at all.
  abbrev pub Settled : (pool.World → List Task) → Task → pool.World → End × pool.World → Type 0
  Settled accepted task w (handed_over, w') = accepted w' ≡ accepted w ++ task ∷ []
  Settled accepted task w (interrupted_exception, w') = accepted w' ≡ accepted w
  Settled accepted task w (running, w') = accepted w' ≡ accepted w

  module _ (accepted : pool.World → List Task) (accepts : Accepts accepted) where
    on_event-Settled :
        (f : ℕ) (task : Task) (w w' : pool.World)
        → accepted w' ≡ accepted w
        → Settled accepted task w (on_event pool f task w')
    unfolding on_event
    on_event-Settled zero task w w' e = e
    on_event-Settled (suc f) task w w' e =
        go (on_event-Settled f task w) (pool.submit task w') (accepts.by_submit task w')
      where
        offered :
            ((u : pool.World)
              → accepted u ≡ accepted w
              → Settled accepted task w (on_event pool f task u))
            → (o : Offered × pool.World) (v : pool.World) → accepted v ≡ accepted w
            → OfferKeeps accepted task v o
            → Settled accepted task w (after_offer pool o (on_event pool f task))
        offered rest (taken, u) v a k = rw (k, a) refl
        offered rest (interrupted, u) v a k = k ∙ a
        offered rest (not_taken, u) v a k = rest u (k ∙ a)

        go :
            ((u : pool.World)
              → accepted u ≡ accepted w
              → Settled accepted task w (on_event pool f task u))
            → (r : Bool × pool.World) → SubmitKeeps accepted task w' r
            → Settled accepted task w (after_submit pool task r (on_event pool f task))
        go rest (true, u) k = rw (k, e) refl
        go rest (false, u) k = elim (Bool-cases (pool.is_shutdown u)) [
          | inl down ↦ rw down (k ∙ e)
          | inr up ↦ rw up (offered rest (pool.offer task u) u (k ∙ e) (accepts.by_offer task u))
        ]

    -- If a round decides, be it that the pool accepts the task, that it is shut down, or that the
    -- offer does not time out, then onEvent ends, however much more fuel it has: it has handed the
    -- task over once, or it throws an InterruptedException and the pool has not accepted the task;
    -- provided that the pool accepts a task exactly if it reports so.
    pub on_event_ends :
        (n fuel : ℕ) (task : Task) (w : pool.World)
        → n < fuel
        → Decides task (rounds n task w)
        → ((on_event pool fuel task w).0 ≢ running)
          × (on_event pool fuel task w ≡ on_event pool (suc n) task w)
          × Settled accepted task w (on_event pool fuel task w)
    on_event_ends n zero task w h d = absurd (ground arith)
    on_event_ends n (suc m) task w h d =
        let s = on_event_stops n m task w (omega arith) d in
        (s.0, s.1, on_event-Settled (suc m) task w w refl)
