-- ===== src/Users/Equality.antt =====
-- The `equals` of the fields of UserData.
use tillerinobot.Prelude.{
  ◌≡◌, refl, sym, ap, ℕ, Bool, true, false, Option, none, some, List, [], ◌∷◌, arith,
}
use tillerinobot.Users.{BeatmapWithMods, same_bool, same_beatmap, same_text, same_option}

pub same_bool_lem : (a b : Bool) → same_bool a b ≡ true → a ≡ b
same_bool_lem true b h = sym h
same_bool_lem false true h = cc
same_bool_lem false false h = refl

pub same_beatmap_lem : (a b : BeatmapWithMods) → same_beatmap a b ≡ true → a ≡ b
same_beatmap_lem a b h = ground (arith, h)

pub same_text_lem : (s t : List ℕ) → same_text s t ≡ true → s ≡ t
same_text_lem [] [] h = refl
same_text_lem [] (d ∷ t) h = cc
same_text_lem (c ∷ s) [] h = cc
same_text_lem (c ∷ s) (d ∷ t) h = ground (arith, h, same_text_lem s t)

pub same_option_lem :
    {A : Type 0} (same : A → A → Bool)
    → ((a b : A) → same a b ≡ true → a ≡ b)
    → (a b : Option A) → same_option same a b ≡ true
    → a ≡ b
same_option_lem same l none none h = refl
same_option_lem same l none (some b) h = cc
same_option_lem same l (some a) none h = cc
same_option_lem same l (some a) (some b) h = ap some (l a b h)
