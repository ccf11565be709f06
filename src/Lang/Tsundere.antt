-- ===== src/Lang/Tsundere.antt =====
-- tillerinobot/src/main/java/tillerino/tillerinobot/lang/TsundereBase.java with
-- AbstractMutableLanguage.java, on which the languages Tsundere and TsundereGerman stand. Their
-- texts, which they choose with shufflers of any kind, are a parameter, and so are random numbers
-- and the base level of a hug, which is computed with logarithms. A counter is an `int`: numbers
-- from 2 ^ 31 on stand for the negative ones.
pub mod Hugs
mod Tests
use text.Mathlib.Text.{find?}
use tillerinobot.Prelude.{
  ℕ, ◌+◌, ◌*◌, ◌%◌, ◌^◌, Bool, true, false, not, ◌||◌, Option, none, some, if◌then◌else◌, ltb,
  String,
}
use tillerinobot.Prelude.Int.{ℤ, pos, negsuc, ltb_ℤ, ◌+ℤ◌, ◌-ℤ◌}
use tillerinobot.Chat.Response.{Response, message}

-- `++` of an `int`.
abbrev pub increment : ℕ → ℕ
increment n = (n + 1) % 2 ^ 32

-- For the base level and two numbers drawn from 0, 1 and 2.
abbrev pub raw_level : ℤ → ℕ → ℕ → ℤ
raw_level base a b = (if ltb_ℤ base (pos 8) then base else pos 8) +ℤ pos a +ℤ pos b -ℤ pos 3

abbrev pub hug_level : ℤ → ℕ → ℕ → ℤ → ℤ
hug_level base a b last =
    if ltb_ℤ (raw_level base a b) last then raw_level base a b else raw_level base a b +ℤ pos 1

-- `count % 4 < 3`, which a negative count satisfies.
abbrev pub is_fake : ℕ → Bool
is_fake count = if ltb count (2 ^ 31) then ltb (count % 4) 3 else true

abbrev pub is_recommendation : Option ℕ → Bool
is_recommendation none = false
is_recommendation (some i) = true

-- The methods that the languages implement.
pub record Texts (Shufflers : Type 0) : Type 0 where
  pub inactive_short_greeting : String → ℕ → Shufflers → String × Shufflers
  pub inactive_greeting : String → ℕ → Shufflers → String × Shufflers
  pub inactive_long_greeting : String → ℕ → Shufflers → String × Shufflers
  pub hug_response_for_hug_level : String → ℤ → Response
  pub optional_comment_on_recommendation_response : ℕ → Response
  pub invalid_choice_response : String → String → String

module _ {Shufflers : Type 0} (texts : Texts Shufflers) where
  pub record TsundereBase : Type 0 where
    pub modified : Bool
    pub recent_recommendations : ℕ
    pub recent_hugs : ℕ
    pub last_hug : ℤ
    pub invalid_recommendation_parameter_count : ℕ
    pub shufflers : Shufflers

  abbrev pub register_modification : TsundereBase → TsundereBase
  register_modification s = record s { modified = true }

  pub greeting : String → ℕ → Shufflers → String × Shufflers
  greeting username inactive_time shufflers =
      if ltb inactive_time (4 * 60 * 1000)
      then texts.inactive_short_greeting username inactive_time shufflers
      else if ltb inactive_time (4 * 24 * 60 * 60 * 1000)
      then texts.inactive_greeting username inactive_time shufflers
      else texts.inactive_long_greeting username inactive_time shufflers

  abbrev pub reset : TsundereBase → TsundereBase
  reset s = record s { recent_recommendations = 0; recent_hugs = 0 }

  pub welcome_user : String → ℕ → TsundereBase → Response × TsundereBase
  unfolding greeting
  welcome_user username inactive_time s =
      let g = greeting username inactive_time s.shufflers in
      let greeted : TsundereBase = record s { shufflers = g.1 } in
      (
        message g.0,
        register_modification
            (if ltb (4 * 60 * 60 * 1000) inactive_time then reset greeted else greeted),
      )

  pub hug : (ℕ → ℕ → ℤ) → ℕ → ℕ → String → TsundereBase → Response × TsundereBase
  hug base_level a b username s =
      let hugs = increment s.recent_hugs in
      let level = hug_level (base_level hugs s.recent_recommendations) a b s.last_hug in
      (
        texts.hug_response_for_hug_level username level,
        record (register_modification s) { recent_hugs = hugs; last_hug = level },
      )

  pub optional_comment_on_recommendation : TsundereBase → Response × TsundereBase
  optional_comment_on_recommendation s =
      let n = increment s.recent_recommendations in
      (
        texts.optional_comment_on_recommendation_response n,
        record (register_modification s) { recent_recommendations = n },
      )

  -- `fake` is the recommendation that `unknownRecommendationParameter` draws.
  pub invalid_choice : String → String → String → TsundereBase → String × TsundereBase
  invalid_choice fake invalid choices s =
      let counted : TsundereBase = record (register_modification s) {
        invalid_recommendation_parameter_count = increment s.invalid_recommendation_parameter_count;
      } in
      if is_recommendation (find? choices "[nomod]")
      then (if is_fake s.invalid_recommendation_parameter_count
          then (fake, counted)
          else (texts.invalid_choice_response invalid choices, counted))
      else (texts.invalid_choice_response invalid choices, s)
