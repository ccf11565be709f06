-- ===== src/Commands/Options/Tests.antt =====
-- A user with a heart, who sets and shows the welcome message.
use tillerinobot.Bot.Texts.{command_of}
use tillerinobot.Prelude.{
  ℕ, suc, ◌≡◌, refl, false, none, some, [], ◌∷◌, ◌++◌, codes, if◌then◌else◌, inr,
}
use tillerinobot.Exceptions.{user_exception}
use tillerinobot.Chat.Response.{message, no_response}
use tillerinobot.Commands.{Text, response, throws, strip_prefix, split_space}
use tillerinobot.Commands.Options.{
  Services, Session, parse_boolean, set_to, show, request_of, should_handle, lang_handler, handle,
  handle_option, handle_get, response_after_set, ask_handlers, option_handlers,
}
use tillerinobot.Commands.Options.Answers.{ShownFor}
use tillerinobot.Commands.Options.Shows.{handle-shows}
use tillerinobot.Commands.Options.Refusals.{handle-unchanged}
use tillerinobot.Users.{Languages, same_text, set_show_welcome_message}
use tillerinobot.Users.Loading.{Jackson, initial, loaded}

abbrev plain : Languages
plain = record {
  Lang = ℕ;
  Json = ℕ;
  is_modified = λ l. false;
  clear_modified = λ l. l;
  value_to_tree = λ l. l;
  tree_to_value = λ id l. some l;
}

abbrev jackson : Jackson plain
jackson = record { write_value_as_string = λ s. 1 ∷ []; read_value = λ t. some (initial plain) }

-- The world counts the updates of the top scores, and a language its refusals.
abbrev services : Services plain ℕ
services = record {
  hearts = λ u w. 1;
  force_update_top_scores = λ u w. (none, suc w);
  parse_sampler_settings = λ t l w. (none, l);
  comment_on_language = λ l. (no_response, l);
  new_instance = λ id. 0;
  distance = λ s t. if same_text s t then 0 else 2;
  token_distance = λ t l. 2;
  invalid_choice = λ t l. ("What?", suc l);
  to_string = λ t. if same_text t (codes "Welcome Message: OFF") then "off" else "other";
}

abbrev user : Session jackson services
user = record {
  user_data = loaded plain jackson 7 (initial plain);
  table = λ u. none;
  lang = 4;
  world = 0;
}

abbrev silent : Session jackson services
silent = record user { user_data = set_show_welcome_message plain false user.user_data }

set_welcome :
    handle jackson services (codes "set Welcome NO") user ≡ (response (message "off"), silent)
unfolding handle request_of ask_handlers handle_option option_handlers response_after_set handle_get
    parse_boolean strip_prefix split_space command_of should_handle set_show_welcome_message
set_welcome = refl

set_request : request_of (codes "set Welcome NO") ≡ some (set_to (codes "welcome") (codes "NO"))
unfolding request_of strip_prefix split_space command_of
set_request = refl

show_request : request_of (codes "GET welcome") ≡ some (show (codes "welcome"))
unfolding request_of strip_prefix split_space command_of
show_request = refl

not_language :
    should_handle jackson services (lang_handler jackson services) (codes "welcome") 1 ≡ false
unfolding should_handle
not_language = refl

handle-shows_example :
    ((description : Text) × (t : Text) × (message "off"
        ≡ message (services.to_string (description ++ (codes ": " ++ t))))
      × ShownFor jackson services (codes "NO") t)
    × (handle jackson services (codes "GET welcome") silent ≡ (response (message "off"), silent))
handle-shows_example =
    handle-shows jackson services (codes "set Welcome NO") (codes "GET welcome") (codes "welcome")
      (codes "NO") user (message "off") silent (λ u v w. refl) set_request show_request not_language
      set_welcome

set_refused :
    (handle jackson services (codes "set v2 maybe") user).0 ≡ throws (user_exception "What?")
unfolding handle request_of ask_handlers handle_option option_handlers response_after_set handle_get
    parse_boolean strip_prefix split_space command_of should_handle
set_refused = refl

handle-unchanged_example :
    (handle jackson services (codes "set v2 maybe") user).1
    ≡ record user { lang = (handle jackson services (codes "set v2 maybe") user).1.lang }
handle-unchanged_example =
    handle-unchanged jackson services (codes "set v2 maybe") user (λ u w m e. cc)
      (inr ("What?", set_refused))
