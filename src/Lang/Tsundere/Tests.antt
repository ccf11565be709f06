-- ===== src/Lang/Tsundere/Tests.antt =====
-- A language with short texts, and hugs at the ends of the range.
use tillerinobot.Prelude.{ℕ, ◌≡◌, ◌≢◌, arith, ◌+◌, ◌-◌, refl, false}
use tillerinobot.Prelude.Int.{ℤ, pos, negsuc, ◌≤ℤ◌, ◌+ℤ◌, ◌-ℤ◌}
use tillerinobot.Chat.Response.{message}
use tillerinobot.Lang.Tsundere.{Texts, TsundereBase, hug}
use tillerinobot.Lang.Tsundere.Hugs.{hug-changes}

abbrev texts : Texts ℕ
texts = record {
  inactive_short_greeting = λ username time n. ("What is this?", n);
  inactive_greeting = λ username time n. ("H-hey...", n);
  inactive_long_greeting = λ username time n. ("Where have you been?", n);
  hug_response_for_hug_level = λ username level. message "Whoops...";
  optional_comment_on_recommendation_response = λ n. message "You know.";
  invalid_choice_response = λ invalid choices. choices;
}

abbrev tsundere : TsundereBase texts
tsundere = record {
  modified = false;
  recent_recommendations = 0;
  recent_hugs = 0;
  last_hug = pos 0;
  invalid_recommendation_parameter_count = 0;
  shufflers = 0;
}

abbrev level : ℕ → ℕ → ℤ
level hugs recommendations = pos (hugs + recommendations - 1)

lowest : (hug texts level 0 0 "a" tsundere).1.last_hug ≡ negsuc 2
unfolding hug ◌+ℤ◌ ◌-ℤ◌
lowest = refl

highest : (hug texts level 2 2 "a" (record tsundere { recent_hugs = 40 })).1.last_hug ≡ pos 10
unfolding hug ◌+ℤ◌ ◌-ℤ◌
highest = refl

hug-changes_example :
    ((hug texts level 0 0 "a" tsundere).1.last_hug ≢ tsundere.last_hug)
    × (negsuc 2 ≤ℤ (hug texts level 0 0 "a" tsundere).1.last_hug)
    × ((hug texts level 0 0 "a" tsundere).1.last_hug ≤ℤ pos 10)
hug-changes_example =
    hug-changes texts level 0 0 "a" tsundere (omega arith) (omega arith) (λ n m. omega arith)
