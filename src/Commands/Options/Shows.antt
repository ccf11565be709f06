-- ===== src/Commands/Options/Shows.antt =====
-- An option that was set is shown as it was set.
use tillerinobot.Prelude.{
  ◌≡◌, refl, sym, ap, subst, ◌∙◌, ℕ, false, Option, none, some, List, ◌∷◌, ◌++◌, codes,
}
use tillerinobot.Chat.Response.{Response, message}
use tillerinobot.Commands.{Text, response}
use tillerinobot.Commands.Options.{
  Services, Session, OptionHandler, option_handlers, lang_handler, should_handle, handle_option,
  ask_handlers, Request, set_to, show, request_of, handle, answer,
}
use tillerinobot.Commands.Options.Answers.{ShownFor, hearts_of, ask_handlers-Answered}
use tillerinobot.Users.{Languages}
use tillerinobot.Users.Loading.{Jackson}
use tillerinobot.Commands.Options.Handlers.{option_handlers-Sets}

module _ {langs : Languages} (jackson : Jackson langs) {World : Type 0}
    (services : Services langs World) where
  lang_passes :
      (rest : List (OptionHandler jackson services)) (option : Text) (value : Option Text)
      (s : Session jackson services)
      → should_handle jackson services
          (lang_handler jackson services)
          option
          (hearts_of jackson services s)
        ≡ false
      → ask_handlers jackson services (lang_handler jackson services ∷ rest) option value s
        ≡ ask_handlers jackson services rest option value s
  unfolding ask_handlers handle_option
  lang_passes rest option value s n = rw n refl

  handle_lem :
      (command : Text) (s : Session jackson services)
      → handle jackson services command s
        ≡ answer jackson services (option_handlers jackson services) (request_of command) s
  unfolding handle
  handle_lem command s = refl

  -- A command for an option that is not the language goes past the first handler.
  handle_passes :
      (rest : List (OptionHandler jackson services)) (command option : Text) (value : Option Text)
      (request : Request) (s : Session jackson services)
      → option_handlers jackson services ≡ lang_handler jackson services ∷ rest
      → request_of command ≡ some request
      → answer jackson services (option_handlers jackson services) (some request) s
        ≡ ask_handlers jackson services (option_handlers jackson services) option value s
      → should_handle jackson services
          (lang_handler jackson services)
          option
          (hearts_of jackson services s)
        ≡ false
      → handle jackson services command s ≡ ask_handlers jackson services rest option value s
  handle_passes rest command option value request s l p a n =
      handle_lem command s
      ∙ ap (λ q. answer jackson services (option_handlers jackson services) q s) p
      ∙ a
      ∙ ap (λ hs. ask_handlers jackson services hs option value s) l
      ∙ lang_passes rest option value s n

  -- A command that sets an option other than the language, and is not refused, is answered with the
  -- value in the spelling of the option, and from then on a command that shows the option has the
  -- same answer and changes nothing, if updating the top scores does not change the donations.
  pub handle-shows :
      (set_command show_command option value : Text) (s : Session jackson services) (r : Response)
      (s' : Session jackson services)
      → ((u v : ℕ) (w : World)
          → services.hearts u (services.force_update_top_scores v w).1 ≡ services.hearts u w)
      → request_of set_command ≡ some (set_to option value)
      → request_of show_command ≡ some (show option)
      → should_handle jackson services
          (lang_handler jackson services)
          option
          (hearts_of jackson services s)
        ≡ false
      → handle jackson services set_command s ≡ (response r, s')
      → ((description : Text) × (t : Text) × (r
            ≡ message (services.to_string (description ++ (codes ": " ++ t))))
          × ShownFor jackson services value t)
        × (handle jackson services show_command s' ≡ (response r, s'))
  handle-shows set_command show_command option value s r s' f p q n e =
      let l = option_handlers-Sets jackson services f in
      let sets : ask_handlers jackson services l.0 option (some value) s ≡ (response r, s') =
        sym (handle_passes l.0 set_command option (some value) (set_to option value) s l.1 p refl n)
        ∙ e in
      let a = ask_handlers-Answered jackson services l.0 option value s r s' l.2 sets in
      (
        a.1,
        handle_passes l.0 show_command option none (show option) s' l.1 q refl (
              subst
                (λ k.
                  should_handle jackson services (lang_handler jackson services) option k ≡ false)
                (sym a.0) n)
            ∙ a.2,
      )
