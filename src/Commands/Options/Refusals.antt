-- ===== src/Commands/Options/Refusals.antt =====
-- Commands that change nothing: those that show an option, and those that are refused.
use tillerinobot.Prelude.{
  ◌≡◌, ◌≢◌, refl, ap, subst, ℕ, Bool, Option, none, some, List, [], ◌∷◌, All, inl, inr, ◌⊎◌,
  Bool-cases, String,
}
use tillerinobot.Exceptions.{Exception, user_exception, runtime}
use tillerinobot.Chat.Response.{Response}
use tillerinobot.Commands.{Text, Handled, not_handled, response, throws}
use tillerinobot.Commands.Finding.{Found, found, nothing_matches, all_match, find}
use tillerinobot.Commands.Options.{
  Services, Session, OptionHandler, parse_boolean, set_parsed, set_found, after_parse, after_save,
  forced, option_handlers, default_handler, should_handle, handle_get, handle_option,
  response_after_set, commented, after_set, or_next, ask_handlers, Request, set_to, show,
  request_of, handle, answer,
}
use tillerinobot.Users.{Languages, UserData, set_v2, using_language}
use tillerinobot.Users.Language.{LanguageIdentifier, values}
use tillerinobot.Users.Loading.{Jackson, Table, save_user_data}

module _ {langs : Languages} (jackson : Jackson langs) {World : Type 0}
    (services : Services langs World) where
  -- Nothing has changed but the language handed over.
  abbrev Same : Session jackson services → Session jackson services → Type 0
  Same s s' = s' ≡ record s { lang = s'.lang }

  -- An end that is a UserException leaves the state.
  abbrev Leaves : Session jackson services → Option Exception × Session jackson services → Type 0
  Leaves s (none, s') = Unit
  Leaves s (some e, s') = (m : String) → e ≡ user_exception m → Same s s'

  abbrev Refuses : OptionHandler jackson services → Type 0
  Refuses h = (value : Text) (s : Session jackson services) → Leaves s (h.handle_set value s)

  -- A text that is no Boolean leaves the state, and a Boolean does if its setter does.
  set_parsed-Leaves :
      (set : Bool → Session jackson services → Option Exception × Session jackson services)
      → ((b : Bool) (s : Session jackson services) → Leaves s (set b s))
      → (value : Text) (o : Option Bool) (s : Session jackson services)
      → Leaves s (set_parsed jackson services set value o s)
  set_parsed-Leaves set l value none s = λ m e. refl
  set_parsed-Leaves set l value (some b) s = l b s

  boolean_handler-Refuses :
      (set : Bool → Session jackson services → Option Exception × Session jackson services)
      → ((b : Bool) (s : Session jackson services) → Leaves s (set b s))
      → (value : Text) (s : Session jackson services)
      → Leaves s (set_parsed jackson services set value (parse_boolean value) s)
  boolean_handler-Refuses set l value s = set_parsed-Leaves set l value (parse_boolean value) s

  set_found-Leaves :
      (value : Text) (f : Found LanguageIdentifier) (s : Session jackson services)
      → Leaves s (set_found jackson services value f s)
  set_found-Leaves value (found l) s = tt
  set_found-Leaves value nothing_matches s = λ m e. refl
  set_found-Leaves value (all_match ls) s = λ m e. refl

  after_parse-Leaves :
      (value : Text) (s : Session jackson services) (o : Option Exception × langs.Lang)
      → Leaves s (after_parse jackson services value s o)
  after_parse-Leaves value s (none, lang) = tt
  after_parse-Leaves value s (some e, lang) = λ m q. refl

  set_default-Leaves : Refuses (default_handler jackson services)
  set_default-Leaves [] s = tt
  set_default-Leaves (c ∷ value) s =
      after_parse-Leaves (c ∷ value) s (services.parse_sampler_settings (c ∷ value) s.lang s.world)

  module _
      (quiet : (u : ℕ) (w : World) (m : String)
        → (services.force_update_top_scores u w).0 ≢ some (user_exception m)) where
    forced-Leaves :
        (d : UserData langs × Table langs) (s : Session jackson services)
        (r : Option Exception × World)
        → ((m : String) → r.0 ≢ some (user_exception m))
        → Leaves s (forced jackson services d s r)
    forced-Leaves d s (none, w) q = tt
    forced-Leaves d s (some x, w) q = λ m e. absurd (q m (ap some e))

    after_save-Leaves :
        (d : UserData langs) (s : Session jackson services)
        (o : Option (UserData langs × Table langs))
        → Leaves s (after_save jackson services d s o)
    after_save-Leaves d s none = λ m e. absurd (not_user_exception m e)
      where
        not_user_exception : (m : String) → runtime ≡ user_exception m → ⊥
        not_user_exception m e = cc
    after_save-Leaves d s (some r) =
        forced-Leaves r s (services.force_update_top_scores r.0.userid s.world)
          (quiet r.0.userid s.world)

    option_handlers-Refuses : All Refuses (option_handlers jackson services)
    unfolding option_handlers
    option_handlers-Refuses = (
      (λ value s. set_found-Leaves value (find (services.token_distance value) values) s),
      (
        boolean_handler-Refuses _ (λ v s. tt),
        (
          boolean_handler-Refuses _ (λ v s. tt),
          (
            set_default-Leaves,
            (
              boolean_handler-Refuses _ (λ v s. tt),
              (
                boolean_handler-Refuses _ (λ v s. after_save-Leaves (set_v2 langs v s.user_data) s (
                    save_user_data langs jackson services.new_instance (set_v2 langs v s.user_data)
                      s.table)),
                tt,
              ),
            ),
          ),
        ),
      ),
    )

  -- An answer that is no response: null, or a UserException, leaves the state.
  abbrev Stays : Session jackson services → Handled × Session jackson services → Type 0
  Stays s (not_handled, s') = s' ≡ s
  Stays s (response r, s') = Unit
  Stays s (throws e, s') = (m : String) → e ≡ user_exception m → Same s s'

  runtime_not_user : (m : String) → runtime ≢ user_exception m
  runtime_not_user m e = cc

  commented-Stays :
      (s s1 : Session jackson services) (o : Option (Response × UserData langs))
      → Stays s (commented jackson services s1 o)
  commented-Stays s s1 none = λ m e. absurd (runtime_not_user m e)
  commented-Stays s s1 (some r) = tt

  response_after_set-Stays :
      (h : OptionHandler jackson services) (s s1 : Session jackson services)
      → Stays s (response_after_set jackson services h s1)
  unfolding response_after_set handle_get
  response_after_set-Stays h s s1 = elim (Bool-cases h.comments_on_language) [
    | inl c ↦ rw c (
        commented-Stays s s1
          (using_language langs services.new_instance services.comment_on_language s1.user_data))
    | inr c ↦ rw c tt
  ]

  after_set-Stays :
      (h : OptionHandler jackson services) (s : Session jackson services)
      (o : Option Exception × Session jackson services)
      → Leaves s o
      → Stays s (after_set jackson services h o)
  after_set-Stays h s (some x, s1) l = l
  after_set-Stays h s (none, s1) l = response_after_set-Stays h s s1

  handle_option-Stays :
      (h : OptionHandler jackson services) (option value : Text) (s : Session jackson services)
      → Refuses h
      → Stays s (handle_option jackson services h option (some value) s)
  unfolding handle_option
  handle_option-Stays h option value s r =
      elim (Bool-cases
        (should_handle jackson services h option (services.hearts s.user_data.userid s.world))) [
          | inl c ↦ rw c (after_set-Stays h s (h.handle_set value s) (r value s))
          | inr c ↦ rw c refl
        ]

  or_next-Stays :
      (s : Session jackson services) (x : Handled × Session jackson services)
      (rest : Session jackson services → Handled × Session jackson services)
      → Stays s x
      → ((z : Session jackson services) → Stays z (rest z))
      → Stays s (or_next jackson services x rest)
  or_next-Stays s (not_handled, z) rest l r = subst (λ y. Stays y (rest z)) l (r z)
  or_next-Stays s (response q, z) rest l r = l
  or_next-Stays s (throws q, z) rest l r = l

  ask_handlers-Stays :
      (hs : List (OptionHandler jackson services)) (option value : Text)
      (s : Session jackson services)
      → All Refuses hs
      → Stays s (ask_handlers jackson services hs option (some value) s)
  unfolding ask_handlers
  ask_handlers-Stays [] option value s a = λ m e. refl
  ask_handlers-Stays (h ∷ hs) option value s a =
      or_next-Stays s (handle_option jackson services h option (some value) s)
        (ask_handlers jackson services hs option (some value))
        (handle_option-Stays h option value s a.0) (λ z. ask_handlers-Stays hs option value z a.1)

  ask_handlers-show :
      (hs : List (OptionHandler jackson services)) (option : Text) (s : Session jackson services)
      → Same s (ask_handlers jackson services hs option none s).1
  unfolding ask_handlers handle_option handle_get
  ask_handlers-show [] option s = refl
  ask_handlers-show (h ∷ hs) option s =
      elim (Bool-cases
        (should_handle jackson services h option (services.hearts s.user_data.userid s.world))) [
          | inl c ↦ rw c refl
          | inr c ↦ rw c (ask_handlers-show hs option s)
        ]

  -- A command that shows an option, or that is refused with a UserException, changes nothing but the
  -- language that the bot has handed over, which is asked for the text of a refusal: not the settings
  -- of the user, not the table, nor anything else; provided that updating the top scores throws no
  -- UserException.
  pub handle-unchanged :
      (command : Text) (s : Session jackson services)
      → ((u : ℕ) (w : World) (m : String)
          → (services.force_update_top_scores u w).0 ≢ some (user_exception m))
      → ((option : Text) × (request_of command ≡ some (show option)))
        ⊎ ((m : String) × ((handle jackson services command s).0 ≡ throws (user_exception m)))
      → (handle jackson services command s).1
        ≡ record s { lang = (handle jackson services command s).1.lang }
  unfolding handle
  handle-unchanged command s quiet (inl (option, q)) =
      rw q (ask_handlers-show (option_handlers jackson services) option s)
  handle-unchanged command s quiet (inr (m, e)) = go (request_of command) m e
    where
      stays :
          (x : Handled × Session jackson services) (m : String)
          → Stays s x
          → x.0 ≡ throws (user_exception m)
          → Same s x.1
      stays (not_handled, z) m l e = cc
      stays (response r, z) m l e = cc
      stays (throws x, z) m l e = l m (throws_injective e)
        where
          throws_injective : {x y : Exception} → throws x ≡ throws y → x ≡ y
          throws_injective e = cc

      go :
          (q : Option Request) (m : String)
          → (answer jackson services (option_handlers jackson services) q s).0
            ≡ throws (user_exception m)
          → Same s (answer jackson services (option_handlers jackson services) q s).1
      go none m e = refl
      go (some (show option)) m e = ask_handlers-show (option_handlers jackson services) option s
      go (some (set_to option value)) m e =
          stays
            (ask_handlers jackson services (option_handlers jackson services) option (some value) s)
            m
            (ask_handlers-Stays (option_handlers jackson services) option value s
              (option_handlers-Refuses quiet))
            e
