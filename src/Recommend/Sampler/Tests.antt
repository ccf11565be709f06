-- ===== src/Recommend/Sampler/Tests.antt =====
-- A sampler for numbers that are their own weights.
use tillerinobot.Prelude.{ℕ, ◌≡◌, refl, arith, some, List, [], ◌∷◌}
use tillerinobot.Recommend.Sampler.{Sampler, create, sample, put, head_map, tail_map}
use tillerinobot.Recommend.Sampler.Sums.{Holds, create-Holds}
use tillerinobot.Recommend.Sampler.Drawing.{Without, sample_lem}

abbrev weight : ℕ → ℕ
weight n = n

-- 4 falls into the share of 3, which is from 2 (exclusive) to 5.
abbrev three : List ℕ
three = 2 ∷ 3 ∷ 4 ∷ []

sample_4 :
    sample weight 4 (create weight three)
    ≡ some (3, record { distribution = (2, 2) ∷ (6, 4) ∷ []; sum = 6 })
unfolding sample create tail_map put head_map
sample_4 = refl

three_held : Holds weight three (create weight three)
three_held = create-Holds weight three (omega arith, (omega arith, (omega arith, tt)))

sample_lem_example :
    (chosen : ℕ) × (rest : List ℕ) × (s' : Sampler weight) × (sample weight 4 (create weight three)
      ≡ some (chosen, s'))
    × Without weight 4 three chosen rest
    × Holds weight rest s'
sample_lem_example =
    sample_lem weight 4 three (create weight three) three_held
      (omega arith, (omega arith, (omega arith, tt))) (λ e. cc e) (omega arith)
