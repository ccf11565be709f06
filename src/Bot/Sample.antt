-- ===== src/Bot/Sample.antt =====
-- A bot whose world is the version that its only user saw last.
use tillerinobot.Prelude.{ℕ, List, Option, subst, ap, refl, true, false, none, some, [], ◌∷◌, codes}
use tillerinobot.Prelude.Int.{ℤ}
use tillerinobot.Limiter
use tillerinobot.Limiter.{Limiter}
use tillerinobot.Commands
use tillerinobot.Commands.{CommandHandler, Handled}
use tillerinobot.Chat.Response.{Response, message, no_response}
use tillerinobot.Chat.Event.{GameChatEvent, private_message}
use tillerinobot.Bot.{Outcome, ok, throws, ApiUser, UserData, Language, Bot, M, Services, pure}
use tillerinobot.Bot.Messages.Keeping.{Keeps, KeepsQueue, pure-Keeps}

abbrev pub language : Language
language = record {
  api_timeout = "timeout";
  external = λ s. s;
  internal = λ s. s;
  unknown_command = λ c. "unknown";
  hug = λ u. message "hug";
  welcome_user = λ u t. message "welcome";
  help = "help";
}

abbrev pub ann : ApiUser
ann = record { user_id = 7; user_name = codes "ann" }

-- Handles every command.
abbrev pub pong : CommandHandler (Bot ℤ)
pong = record { handle = λ command s. (Commands.response (message "pong"), s); choices = [] }

abbrev pub talking : UserData ℤ
talking = record {
  show_welcome_message = true;
  osu_track_welcome = false;
  language = pure language;
}

abbrev pub data_of : Outcome (UserData ℤ) → UserData ℤ
data_of (ok d) = d
data_of (throws e) = talking

abbrev pub services : Services ℤ
services = record {
  resolve_irc_name = λ nick. pure (some 7);
  set_mapping = λ nick id. pure tt;
  redownload_user = λ nick. pure (some ann);
  get_user = λ id age. pure (some ann);
  get_donator = λ id. pure 0;
  load_user_data = λ id. pure talking;
  save_user_data = λ id. pure tt;
  get_last_visited_version = λ nick s. (ok s.world, s);
  set_last_visited_version = λ nick v s. (ok tt, record s { world = v });
  get_last_activity = λ u. pure 0;
  register_activity = λ id t. pure tt;
  get_update = λ id. pure no_response;
  fix_id = λ text. pure none;
  link_ppaddict = λ text u. pure none;
  now_playing = λ text u l. pure none;
  command_handlers = λ u l. pong ∷ [];
  random_string = λ s. ("x", s);
  default_language = language;
  confusing_name = λ s. s;
  put_interrupted = λ v. false;
}

abbrev pub seen : ℤ → Bot ℤ
seen v = record { limiter = Limiter.initial; queue = []; world = v }

abbrev pub event : GameChatEvent
event = record { event_id = 4; nick = "ann"; timestamp = 0; kind = private_message "!ping" }

-- Whatever `fix_id` is, if it leaves the queue alone.
pub keeps_with :
    (f : List ℕ → M ℤ (Option Response))
    → ((text : List ℕ) → Keeps (f text))
    → KeepsQueue (record services { fix_id = f })
keeps_with f h = record {
  resolving = λ nick. pure-Keeps;
  mapping = λ nick id. pure-Keeps;
  redownloading = λ nick. pure-Keeps;
  getting = λ id age. pure-Keeps;
  donating = λ id. pure-Keeps;
  loading = λ id. pure-Keeps;
  speaking = λ id d s t e.
      subst (λ (x : UserData ℤ). Keeps x.language)
        (ap (λ (x : Outcome (UserData ℤ) × Bot ℤ). data_of x.0) e) pure-Keeps;
  saving = λ id. pure-Keeps;
  reading_version = λ nick. record { kept = λ s. refl };
  writing_version = λ nick v. record { kept = λ s. refl };
  reading_activity = λ u. pure-Keeps;
  noting = λ id t. pure-Keeps;
  getting_update = λ id. pure-Keeps;
  fixing = h;
  linking = λ text u. pure-Keeps;
  playing = λ text u l. pure-Keeps;
  handling_commands = λ u l. ((λ c s. refl), tt);
  drawing = λ s. refl;
}

pub keeps : KeepsQueue services
keeps = keeps_with (λ text. pure none) (λ text. pure-Keeps)
