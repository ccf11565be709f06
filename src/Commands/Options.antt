-- ===== src/Commands/Options.antt =====
-- `handle` of tillerinobot/src/main/java/tillerino/tillerinobot/handlers/OptionsHandler.java and the
-- handlers of handlers/options. The state is the data of the user, the table of `Users.Loading`, and
-- a world of what else is called, which is a parameter: the donations, the recommendations manager,
-- the parser of recommendation settings, and the edit distance of a library. The language that the
-- bot hands over is a part of the state, since some languages change when they are asked for a text;
-- how `usingLanguage` puts it back into the data of the user is modelled in `Users`.
mod Requests
pub mod Answers
pub mod Handlers
pub mod Shows
pub mod Refusals
mod Tests
unfoldable pub use tillerinobot.Commands.Options.Requests.{parse_boolean, request_of}
pub use tillerinobot.Commands.Options.Requests.{
  on_off, or_dash, is_short_name, Request, set_to, show,
}
use tillerinobot.Prelude.{
  ℕ, Bool, true, false, ◌&&◌, ◌||◌, not, Option, none, some, List, [], ◌∷◌, ◌++◌, map, String,
  if◌then◌else◌, leb, ltb, codes,
}
use tillerinobot.Exceptions.{Exception, user_exception, runtime}
use tillerinobot.Chat.Response.{Response, message}
use tillerinobot.Commands.{
  Text, Handled, not_handled, response, throws, to_lower, strip_prefix, split_space,
}
use tillerinobot.Commands.Finding.{Found, found, nothing_matches, all_match, find}
use tillerinobot.Users.Language.{LanguageIdentifier, values, token}
use tillerinobot.Users.{
  Languages, UserData, same_text, set_language, set_default_recommendation_options,
  set_show_welcome_message, set_osu_track_welcome_enabled, set_show_map_meta_data_on_recommendation,
  set_v2, using_language,
}
use tillerinobot.Users.Loading.{Jackson, Table, save_user_data}

pub record Services (langs : Languages) (World : Type 0) : Type 0 where
  -- `getDonator` of the backend
  pub hearts : ℕ → World → ℕ
  -- `none` if it returns
  pub force_update_top_scores : ℕ → World → Option Exception × World
  -- with the language handed over, which its texts may change
  pub parse_sampler_settings : Text → langs.Lang → World → Option Exception × langs.Lang
  -- `optionalCommentOnLanguage`
  pub comment_on_language : langs.Lang → Response × langs.Lang
  pub new_instance : LanguageIdentifier → langs.Lang
  pub distance : Text → Text → ℕ
  -- from a token to a text, both in lower case
  pub token_distance : Text → LanguageIdentifier → ℕ
  pub invalid_choice : Text → langs.Lang → String × langs.Lang
  pub to_string : Text → String

module _ {langs : Languages} (jackson : Jackson langs) {World : Type 0}
    (services : Services langs World) where
  pub record Session : Type 0 where
    pub user_data : UserData langs
    pub table : Table langs
    -- the language that the bot hands over
    pub lang : langs.Lang
    pub world : World

  -- How a `handleSet` ends: `none` if it returns.
  pub record OptionHandler : Type 0 where
    pub description : Text
    pub option_name : Text
    pub short_option_name : Option Text
    pub min_hearts : ℕ
    pub handle_set : Text → Session → Option Exception × Session
    pub comments_on_language : Bool
    pub current_value : UserData langs → Text

  abbrev pub refused : Text → Session → Option Exception × Session
  refused value s =
      let (text, lang) = services.invalid_choice value s.lang in
      (some (user_exception text), record s { lang = lang })

  abbrev pub set_data : UserData langs → Session → Option Exception × Session
  set_data d s = (none, record s { user_data = d })

  abbrev pub set_parsed :
      (Bool → Session → Option Exception × Session)
      → Text
      → Option Bool
      → Session
      → Option Exception × Session
  set_parsed handle_set_boolean value none s = refused value s
  set_parsed handle_set_boolean value (some b) s = handle_set_boolean b s

  abbrev pub set_boolean :
      (Bool → Session → Option Exception × Session) → Text → Session → Option Exception × Session
  set_boolean handle_set_boolean value s =
      set_parsed handle_set_boolean value (parse_boolean value) s

  abbrev pub boolean_handler :
      Text
      → Text
      → ℕ
      → (Bool → Session → Option Exception × Session)
      → (UserData langs → Bool)
      → OptionHandler
  boolean_handler description name min_hearts set get = record {
    description = description;
    option_name = name;
    short_option_name = none;
    min_hearts = min_hearts;
    handle_set = set_boolean set;
    comments_on_language = false;
    current_value = λ d. on_off (get d);
  }

  abbrev pub set_found : Text → Found LanguageIdentifier → Session → Option Exception × Session
  set_found value (found l) s = set_data (set_language langs l s.user_data) s
  set_found value nothing_matches s = refused value s
  set_found value (all_match ls) s = refused value s

  abbrev pub lang_handler : OptionHandler
  lang_handler = record {
    description = codes "Language";
    option_name = codes "language";
    short_option_name = some (codes "lang");
    min_hearts = 0;
    handle_set = λ value. set_found value (find (services.token_distance value) values);
    comments_on_language = true;
    current_value = λ d. token d.saved.language_identifier;
  }

  abbrev pub after_parse :
      Text → Session → Option Exception × langs.Lang → Option Exception × Session
  after_parse value s (some e, lang) = (some e, record s { lang = lang })
  after_parse value s (none, lang) =
      set_data (set_default_recommendation_options langs (some value) s.user_data)
        (record s { lang = lang })

  abbrev pub set_default : Text → Session → Option Exception × Session
  set_default [] s = set_data (set_default_recommendation_options langs none s.user_data) s
  set_default (c ∷ value) s =
      after_parse (c ∷ value) s (services.parse_sampler_settings (c ∷ value) s.lang s.world)

  abbrev pub default_handler : OptionHandler
  default_handler = record {
    description = codes "Default recommendation settings";
    option_name = codes "default";
    short_option_name = none;
    min_hearts = 0;
    handle_set = set_default;
    comments_on_language = false;
    current_value = λ d. or_dash d.saved.default_recommendation_options;
  }

  abbrev pub forced :
      UserData langs × Table langs → Session → Option Exception × World → Option Exception × Session
  forced (d, table) s (e, w) = (e, record s { user_data = d; table = table; world = w })

  -- `V2ApiOptionHandler`: the data are saved at once. With data that cannot be read, the setting is
  -- made, and an exception is thrown.
  abbrev pub after_save :
      UserData langs → Session → Option (UserData langs × Table langs) → Option Exception × Session
  after_save d s none = (some runtime, record s { user_data = d })
  after_save d s (some saved) =
      forced saved s (services.force_update_top_scores saved.0.userid s.world)

  abbrev pub set_v2_boolean : Bool → Session → Option Exception × Session
  set_v2_boolean v s =
      let d = set_v2 langs v s.user_data in
      after_save d s (save_user_data langs jackson services.new_instance d s.table)

  pub option_handlers : List OptionHandler
  option_handlers =
      lang_handler
      ∷ boolean_handler (codes "Welcome Message") (codes "welcome") 1
          (λ v s. set_data (set_show_welcome_message langs v s.user_data) s)
          (λ d. d.saved.show_welcome_message)
      ∷ boolean_handler (codes "osu!track on welcome") (codes "osutrack-welcome") 1
          (λ v s. set_data (set_osu_track_welcome_enabled langs v s.user_data) s)
          (λ d. d.saved.osu_track_welcome_enabled)
      ∷ default_handler
      ∷ boolean_handler (codes "Show map metadata on recommendations") (codes "r-metadata") 0
          (λ v s. set_data (set_show_map_meta_data_on_recommendation langs v s.user_data) s)
          (λ d. d.saved.show_map_meta_data_on_recommendation)
      ∷ boolean_handler (codes "v2 API") (codes "v2") 0 set_v2_boolean (λ d. d.saved.v2)
      ∷ []

  pub should_handle : OptionHandler → Text → ℕ → Bool
  should_handle h option user_hearts =
      not (ltb user_hearts h.min_hearts)
      && (is_short_name h.short_option_name option
          || leb (services.distance option h.option_name) 1)

  pub handle_get : OptionHandler → Session → Handled
  handle_get h s =
      response (
        message (services.to_string (h.description ++ (codes ": " ++ h.current_value s.user_data))))

  abbrev pub commented : Session → Option (Response × UserData langs) → Handled × Session
  commented s none = (throws runtime, s)
  commented s (some (r, d)) = (response r, record s { user_data = d })

  -- `responseAfterSet`, which `LangOptionHandler` overrides.
  pub response_after_set : OptionHandler → Session → Handled × Session
  response_after_set h s =
      if h.comments_on_language
      then commented s
          (using_language langs services.new_instance services.comment_on_language s.user_data)
      else (handle_get h s, s)

  abbrev pub after_set : OptionHandler → Option Exception × Session → Handled × Session
  after_set h (some e, s) = (throws e, s)
  after_set h (none, s) = response_after_set h s

  -- `OptionHandler.handle`: a value is given if the option is to be set.
  pub handle_option : OptionHandler → Text → Option Text → Session → Handled × Session
  handle_option h option value s =
      if should_handle h option (services.hearts s.user_data.userid s.world)
      then elim value [ some v ↦ after_set h (h.handle_set v s) | none ↦ (handle_get h s, s) ]
      else (not_handled, s)

  abbrev pub or_next : Handled × Session → (Session → Handled × Session) → Handled × Session
  or_next (not_handled, s) rest = rest s
  or_next (response r, s) rest = (response r, s)
  or_next (throws e, s) rest = (throws e, s)

  -- The loop over the handlers, and the exception behind it.
  pub ask_handlers : List OptionHandler → Text → Option Text → Session → Handled × Session
  ask_handlers [] option value s =
      let (text, lang) = services.invalid_choice option s.lang in
      (throws (user_exception text), record s { lang = lang })
  ask_handlers (h ∷ hs) option value s =
      or_next (handle_option h option value s) (ask_handlers hs option value)

  abbrev pub answer : List OptionHandler → Option Request → Session → Handled × Session
  answer hs none s = (not_handled, s)
  answer hs (some (set_to option value)) s = ask_handlers hs option (some value) s
  answer hs (some (show option)) s = ask_handlers hs option none s

  pub handle : Text → Session → Handled × Session
  unfolding option_handlers
  handle command s = answer option_handlers (request_of command) s
