-- ===== src/Bot/Tests.antt =====
-- The theorems on the bot at a small one.
use tillerinobot.Prelude.{◌≡◌, refl, codes, ap, sym, ◌∙◌, []}
use tillerinobot.Prelude.Int.{ℤ, pos}
use tillerinobot.Chat.Event.{is_interactive}
use tillerinobot.Bot.{Outcome, ok, Bot}
use tillerinobot.Bot.Messages.{check_version_info, greet, greeting, version_message}
use tillerinobot.Bot.Messages.Version.{RemembersVersion}
use tillerinobot.Bot.Events.{visit, begin_event, on_event}
use tillerinobot.Bot.Events.Endings.{Ends, on_event-Answered}
use tillerinobot.Bot.Sample.{services, seen, event, keeps}

remembers : RemembersVersion services
remembers = record {
  written = λ nick v s s' e. ap (λ (x : Outcome (Unit {0}) × Bot ℤ). ok x.1.world) (sym e);
  kept = λ nick v s s' e.
      ap (λ (x : Outcome ℤ × Bot ℤ). ok x.1.world) (sym e) ∙ ap (λ (x : Outcome ℤ × Bot ℤ). x.0) e;
}

greeted :
    check_version_info services (codes "ann") (seen (pos 9)) ≡ (ok version_message, seen (pos 13))
unfolding check_version_info greet greeting
greeted = refl

on_event-Answered_example :
    Ends services 3 event
      (visit services event 50 (begin_event services 3 event (seen (pos 9))))
      []
      (on_event services 3 50 event (seen (pos 9))).1.queue
unfolding is_interactive
on_event-Answered_example = on_event-Answered services keeps 3 50 event (seen (pos 9)) refl
