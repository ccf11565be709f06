-- ===== src/Recommend/Manager/Exhausted.antt =====
-- What a user is given who asks again and again without a message.
use mathlib.Core.List.{Perm, perm_middle}
use mathlib.Core.List.Perm
use tillerinobot.Prelude.{
  ℕ, suc, ◌≤◌, ◌≡◌, refl, Option, none, some, List, [], ◌∷◌, ◌++◌, All, length, map, arith, subst,
  sym, ap, ◌∙◌,
}
use tillerinobot.Recommend.Sampler.{Sampler}
use tillerinobot.Recommend.Sampler.Sums.{Holds, IsPositive, is_empty-Holds_nil, is_empty-Holds_cons}
use tillerinobot.Recommend.Sampler.Drawing.{sample_lem}
use tillerinobot.Recommend.Top.{BareRecommendation}
use tillerinobot.Recommend.Settings.{Request}
use tillerinobot.Recommend.Manager.{
  Backend, Caches, Result, recommended, out_of_recommendations, chosen, weight, choose, load_meta,
  recommend, get_recommendation,
}

All-without :
    {T : Type 0} (P : T → Type 0) (before : List T) (c : T) (after : List T)
    → All P (before ++ (c ∷ after))
    → All P (before ++ after)
All-without P [] c after h = h.1
All-without P (x ∷ before) c after h = (h.0, All-without P before c after h.1)

length-without :
    {T : Type 0} (before : List T) (c : T) (after : List T)
    → length (before ++ (c ∷ after)) ≡ suc (length (before ++ after))
length-without [] c after = refl
length-without (x ∷ before) c after = ap suc (length-without before c after)

module _ {Mod Beatmap Meta : Type 0} (backend : Backend Mod Beatmap Meta) where
  -- Calls without a message, one for each number that is drawn.
  abbrev pub calls : List ℕ → Caches Mod Meta → List (Result Mod Meta) × Caches Mod Meta
  calls [] s = ([], s)
  calls (x ∷ numbers) s =
      let answer = get_recommendation backend none x s in
      let rest = calls numbers answer.1 in (answer.0 ∷ rest.0, rest.1)

  abbrev pub sum_of : Option (Request Mod × Sampler weight) → ℕ
  sum_of none = 0
  sum_of (some (settings, sampler)) = sampler.sum

  -- Each number is at most the sum of the sampler that it is drawn for.
  abbrev pub InRange : List ℕ → Caches Mod Meta → Type 0
  InRange [] s = Unit {0}
  InRange (x ∷ numbers) s =
      (x ≤ sum_of s.sampler) × InRange numbers (get_recommendation backend none x s).1

  -- The cached sampler holds these recommendations, all of positive probability.
  pub record Holding (settings : Request Mod) (xs : List BareRecommendation) (s : Caches Mod Meta)
      : Type 0 where
    pub sampler : Sampler weight
    pub cached : s.sampler ≡ some (settings, sampler)
    pub held : Holds weight xs sampler
    pub positive : All (IsPositive weight) xs

  -- The beatmaps of all recommendations can be loaded.
  abbrev pub Loads : (BareRecommendation → Meta) → Type 0
  Loads meta = (r : BareRecommendation) → load_meta backend r ≡ some (meta r)

  abbrev pub shown : (BareRecommendation → Meta) → BareRecommendation → Result Mod Meta
  shown meta r = recommended (record { beatmap = meta r; bare = r })

  choose-cached :
      (settings : Request Mod) (sampler : Sampler weight) (s : Caches Mod Meta)
      → s.sampler ≡ some (settings, sampler)
      → choose backend s.sampler none ≡ chosen settings sampler
  unfolding choose
  choose-cached settings sampler s h = rw h

  call-empty :
      (settings : Request Mod) (x : ℕ) (s : Caches Mod Meta)
      → Holding settings [] s
      → get_recommendation backend none x s ≡ (out_of_recommendations, record s { sampler = none })
  unfolding get_recommendation recommend
  call-empty settings x s h =
      rw (choose-cached settings h.sampler s h.cached, is_empty-Holds_nil weight h.sampler h.held)

  -- What a call does to a sampler that is not empty.
  record Called (settings : Request Mod) (meta : BareRecommendation → Meta)
      (xs : List BareRecommendation) (x : ℕ) (s : Caches Mod Meta) : Type 0 where
    given : BareRecommendation
    before : List BareRecommendation
    after : List BareRecommendation
    whole : xs ≡ before ++ (given ∷ after)
    result : (get_recommendation backend none x s).0 ≡ shown meta given
    left : Holding settings (before ++ after) (get_recommendation backend none x s).1

  call-cons :
      (settings : Request Mod) (meta : BareRecommendation → Meta) (y : BareRecommendation)
      (ys : List BareRecommendation) (x : ℕ) (s : Caches Mod Meta)
      → Loads meta
      → Holding settings (y ∷ ys) s
      → x ≤ sum_of s.sampler
      → Called settings meta (y ∷ ys) x s
  unfolding get_recommendation recommend
  call-cons settings meta y ys x s loads h u =
      let drawn =
        sample_lem weight x (y ∷ ys) h.sampler h.held h.positive (λ e. cc)
          (subst (λ n. x ≤ n) (ap sum_of h.cached ∙ h.held.sum) u) in
      let parts = drawn.4 in
      let answer : get_recommendation backend none x s ≡ (
        shown meta drawn.0,
        record {
          sampler = some (settings, drawn.2);
          last = some (record { beatmap = meta drawn.0; bare = drawn.0 });
        },
      ) =
        rw (
          choose-cached settings h.sampler s h.cached,
          is_empty-Holds_cons weight y ys h.sampler h.held,
          drawn.3,
          loads drawn.0,
        ) in
      record {
        given = drawn.0;
        before = parts.before;
        after = parts.after;
        whole = parts.whole;
        result = ap (λ p. p.0) answer;
        left = record {
          sampler = drawn.2;
          cached = ap (λ p. p.1.sampler) answer;
          held = subst (λ l. Holds weight l drawn.2) parts.left drawn.5;
          positive =
              All-without (IsPositive weight) parts.before drawn.0 parts.after
                (subst (All (IsPositive weight)) parts.whole h.positive);
        };
      }

  -- The results of as many calls as there are recommendations, and of the next.
  pub record Exhausted (meta : BareRecommendation → Meta) (xs : List BareRecommendation)
      (numbers : List ℕ) (s : Caches Mod Meta) : Type 0 where
    pub order : List BareRecommendation
    pub all : Perm order xs
    pub given : (calls numbers s).0 ≡ map (shown meta) order
    pub out :
        (x : ℕ)
        → get_recommendation backend none x (calls numbers s).1
          ≡ (out_of_recommendations, record (calls numbers s).1 { sampler = none })

  -- From a cached sampler, as many calls without a message as it has recommendations give each of them
  -- exactly once, in an order that the numbers drawn decide, if these are in range, all probabilities
  -- are positive and all beatmaps can be loaded. The next call says that there are no more and drops
  -- the sampler.
  pub calls-Exhausted :
      (settings : Request Mod) (meta : BareRecommendation → Meta) (xs : List BareRecommendation)
      (numbers : List ℕ) (s : Caches Mod Meta)
      → Loads meta
      → Holding settings xs s
      → length numbers ≡ length xs
      → InRange numbers s
      → Exhausted meta xs numbers s
  calls-Exhausted settings meta [] [] s loads h e r = record {
    order = [];
    all = Perm.rfl;
    given = refl;
    out = λ x. call-empty settings x s h;
  }
  calls-Exhausted settings meta [] (x ∷ numbers) s loads h e r = absurd (omega (arith, e))
  calls-Exhausted settings meta (y ∷ ys) [] s loads h e r = absurd (omega (arith, e))
  calls-Exhausted settings meta (y ∷ ys) (x ∷ numbers) s loads h e r =
      let c = call-cons settings meta y ys x s loads h r.0 in
      let rest =
        calls-Exhausted settings meta (c.before ++ c.after) numbers _ loads c.left
          (omega (arith, e, ap length c.whole, length-without c.before c.given c.after)) r.1 in
      record {
        order = c.given ∷ rest.order;
        all =
            subst (Perm (c.given ∷ rest.order)) (sym c.whole)
              (Perm.trans (Perm.cons c.given rest.all) (Perm.symm (perm_middle c.before c.after)));
        given = rw (c.result, rest.given);
        out = rest.out;
      }
