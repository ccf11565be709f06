-- ===== src/Pipeline/Stuck.antt =====
-- A message that the bot loses.
use tillerinobot.Prelude.{◌≡◌, ◌⊎◌, List, [], ◌∷◌}
use tillerinobot.Chat.Event.{GameChatEvent}
use tillerinobot.Bot.{Bot}
use tillerinobot.Pipeline.Runs.{Stage, lost}

abbrev Flights : Type 0
Flights = List (GameChatEvent × Stage)

-- The event is among those that are lost.
abbrev Lost : GameChatEvent → Flights → Type 0
Lost e [] = ⊥
Lost e (f ∷ fs) = (f ≡ (e, lost)) ⊎ Lost e fs
