-- ===== src/Recommend/Sampler/Drawing.antt =====
-- `sample` of Sampler.java: which element it draws, and what it leaves.
use tillerinobot.Prelude.{
  ℕ, ◌+◌, ◌-◌, ◌≤◌, ◌<◌, ◌≡◌, ◌≢◌, refl, true, false, some, List, [], ◌∷◌, ◌++◌, ltb, arith, All,
  ap, ◌∙◌, ◌⊎◌, inl, inr, Bool-cases, subst,
}
use tillerinobot.Recommend.Sampler.{tail_map, head_map, Sampler, fill, draw, sample}
use tillerinobot.Recommend.Sampler.Sums.{total, keyed, IsPositive, Holds, fill-Holds, values-keyed}

ltb-cases : (a b : ℕ) → ((a < b) × (ltb a b ≡ true)) ⊎ ((b ≤ a) × (ltb a b ≡ false))
ltb-cases a b = elim (Bool-cases (ltb a b)) [
  | inl e ↦ inl (ground arith, e)
  | inr e ↦ inr (ground arith, e)
]

plus_zero : (a b : ℕ) → a + b ≡ a + 0 + b
plus_zero a b = omega arith

module _ {ℓ} {T : Type ℓ} (probability : T → ℕ) where
  -- Where `x` falls among the sums of a list.
  pub record Cut (acc x : ℕ) (xs : List T) : Type ℓ where
    pub before : List T
    pub chosen : T
    pub after : List T
    pub parts : xs ≡ before ++ chosen ∷ after
    pub upper : x ≤ acc + total probability before + probability chosen
    pub lower : (before ≡ []) ⊎ (acc + total probability before < x)
    pub head : head_map x (keyed probability acc xs) ≡ keyed probability acc before
    pub tail :
        tail_map x (keyed probability acc xs)
        ≡ (acc + total probability before + probability chosen, chosen)
          ∷ keyed probability (acc + total probability before + probability chosen) after

  later_lower :
      (acc x : ℕ) (y : T) (before : List T)
      → acc + probability y < x
      → (before ≡ []) ⊎ (acc + probability y + total probability before < x)
      → acc + total probability (y ∷ before) < x
  later_lower acc x y before late (inl e) = omega (arith, late, ap (total probability) e)
  later_lower acc x y before late (inr h) = omega (arith, h)

  Cut-later :
      (acc x : ℕ) (y : T) (ys : List T)
      → (acc + probability y < x) × (ltb (acc + probability y) x ≡ true)
      → Cut (acc + probability y) x ys
      → Cut acc x (y ∷ ys)
  unfolding head_map tail_map
  Cut-later acc x y ys late c =
      let shift : acc + probability y + total probability c.before + probability c.chosen
          ≡ acc + total probability (y ∷ c.before) + probability c.chosen =
        omega arith in
      record {
        before = y ∷ c.before;
        chosen = c.chosen;
        after = c.after;
        parts = ap (◌∷◌ y) c.parts;
        upper = omega (arith, c.upper);
        lower = inr (later_lower acc x y c.before late.0 c.lower);
        head = rw (late.1, c.head);
        tail = (rw late.1) ∙ c.tail ∙ ap (λ n. (n, c.chosen) ∷ keyed probability n c.after) shift;
      }

  not_past : (acc x : ℕ) (xs : List T) → acc < x → x ≤ acc + total probability xs → xs ≢ []
  not_past acc x [] h k e = absurd (omega arith)
  not_past acc x (y ∷ ys) h k e = cc e

  cut : (acc x : ℕ) (xs : List T) → x ≤ acc + total probability xs → xs ≢ [] → Cut acc x xs
  unfolding head_map tail_map
  cut acc x [] h n = absurd (n refl)
  cut acc x (y ∷ ys) h n = elim (ltb-cases (acc + probability y) x) [
    | inl late ↦ Cut-later acc x y ys late (
        cut (acc + probability y) x ys (omega arith)
          (not_past (acc + probability y) x ys late.0 (omega arith)))
    | inr early ↦ record {
      before = [];
      chosen = y;
      after = ys;
      parts = refl;
      upper = omega (arith, early.0);
      lower = inl refl;
      head = rw early.1;
      tail =
          (rw early.1) ∙ ap (λ n. (n, y) ∷ keyed probability n ys) (plus_zero acc (probability y));
    }
  ]

  -- A list without the one of its elements whose share of the sum `x` falls into.
  pub record Without (x : ℕ) (xs : List T) (chosen : T) (rest : List T) : Type ℓ where
    pub before : List T
    pub after : List T
    pub whole : xs ≡ before ++ chosen ∷ after
    pub left : rest ≡ before ++ after
    pub upper : x ≤ total probability before + probability chosen
    pub lower : (before ≡ []) ⊎ (total probability before < x)

  All-after :
      (before : List T) (chosen : T) (after : List T)
      → All (IsPositive probability) (before ++ chosen ∷ after)
      → All (IsPositive probability) after
  All-after [] chosen after p = p.1
  All-after (y ∷ before) chosen after p = All-after before chosen after p.1

  from_zero :
      (x : ℕ) (before : List T)
      → (before ≡ []) ⊎ (0 + total probability before < x)
      → (before ≡ []) ⊎ (total probability before < x)
  from_zero x before (inl e) = inl e
  from_zero x before (inr h) = inr (omega (arith, h))

  -- What is put back once `chosen` is out.
  abbrev refilled : List T → T → List T → Sampler probability
  refilled before chosen after = fill probability after (record {
    distribution = keyed probability 0 before;
    sum = 0 + total probability before + probability chosen - probability chosen;
  })

  refilled-Holds :
      (before : List T) (chosen : T) (after : List T)
      → All (IsPositive probability) after
      → Holds probability (before ++ after) (refilled before chosen after)
  refilled-Holds before chosen after p =
      fill-Holds probability before after _ p (record { entries = refl; sum = omega arith })

  sample-Cut :
      (x : ℕ) (xs : List T) (s : Sampler probability)
      → Holds probability xs s
      → (c : Cut 0 x xs)
      → sample probability x s ≡ some (c.chosen, refilled c.before c.chosen c.after)
  unfolding sample draw
  sample-Cut x xs s h c =
      ap (λ m. draw probability (head_map x m) (tail_map x m)) h.entries
      ∙ ap (λ m. draw probability m (tail_map x (keyed probability 0 xs))) c.head
      ∙ ap (draw probability (keyed probability 0 c.before)) c.tail
      ∙ ap
          (λ ys. some (
            c.chosen,
            fill probability ys (record {
              distribution = keyed probability 0 c.before;
              sum = 0 + total probability c.before + probability c.chosen - probability c.chosen;
            }),
          ))
          (values-keyed probability _ c.after)

  -- From a sampler that holds at least one element, all of positive weight, any number up to the
  -- sum draws the element whose share of the sum it falls into, and the sampler is left with
  -- exactly the others, in their order.
  pub sample_lem :
      (x : ℕ) (xs : List T) (s : Sampler probability)
      → Holds probability xs s
      → All (IsPositive probability) xs
      → xs ≢ []
      → x ≤ total probability xs
      → (chosen : T) × (rest : List T) × (s' : Sampler probability) × (sample probability x s
          ≡ some (chosen, s'))
        × Without x xs chosen rest
        × Holds probability rest s'
  sample_lem x xs s h p n u =
      let c = cut 0 x xs (omega (arith, u)) n in
      (
        c.chosen,
        c.before ++ c.after,
        refilled c.before c.chosen c.after,
        sample-Cut x xs s h c,
        record {
          before = c.before;
          after = c.after;
          whole = c.parts;
          left = refl;
          upper = omega (arith, c.upper);
          lower = from_zero x c.before c.lower;
        },
        refilled-Holds c.before c.chosen c.after
            (All-after c.before c.chosen c.after (subst (All (IsPositive probability)) c.parts p)),
      )
