-- ===== src/Commands/Options/Handlers.antt =====
-- The handlers of options: that they set what they show.
use tillerinobot.Prelude.{
  ◌≡◌, refl, ap, subst, ◌∙◌, ℕ, Bool, Option, none, some, List, [], ◌∷◌, All, inl, inr,
}
use tillerinobot.Exceptions.{Exception, runtime}
use tillerinobot.Commands.{Text}
use tillerinobot.Commands.Options.{
  Services, Session, OptionHandler, parse_boolean, on_off, set_data, set_parsed, after_parse,
  after_save, set_default, set_v2_boolean, option_handlers, lang_handler, boolean_handler,
  default_handler,
}
use tillerinobot.Commands.Options.Answers.{ShownFor, hearts_of, Sets}
use tillerinobot.Users.{
  Languages, UserData, set_default_recommendation_options, set_show_welcome_message,
  set_osu_track_welcome_enabled, set_show_map_meta_data_on_recommendation, set_v2,
}
use tillerinobot.Users.Loading.{Jackson, Table, save_user_data}
use tillerinobot.Users.Loading.Rows.{SameSettings}
use tillerinobot.Users.Loading.Settings.{save_user_data-SameSettings}

module _ {langs : Languages} (jackson : Jackson langs) {World : Type 0}
    (services : Services langs World) where
  boolean_handler-Sets :
      (description name : Text) (min_hearts : ℕ)
      (set : Bool → Session jackson services → Option Exception × Session jackson services)
      (get : UserData langs → Bool)
      → ((b : Bool) (s s' : Session jackson services)
          → set b s ≡ (none, s')
          → (hearts_of jackson services s' ≡ hearts_of jackson services s) × (get s'.user_data ≡ b))
      → Sets jackson services (boolean_handler jackson services description name min_hearts set get)
  boolean_handler-Sets description name min_hearts set get law = record {
    quiet = refl;
    sets = λ value s s' e. go value (parse_boolean value) refl s s' e;
  }
    where
      go :
          (value : Text) (o : Option Bool)
          → parse_boolean value ≡ o
          → (s s' : Session jackson services)
          → set_parsed jackson services set value o s ≡ (none, s')
          → (hearts_of jackson services s' ≡ hearts_of jackson services s)
            × ShownFor jackson services value (on_off (get s'.user_data))
      go value none p s s' e = absurd (some_not_none (ap (λ x. x.0) e))
        where
          some_not_none : {x : Exception} → some x ≡ none → ⊥
          some_not_none e = cc
      go value (some b) p s s' e = let l = law b s s' e in (l.0, inl (b, p, ap on_off l.1))

  default_handler-Sets : Sets jackson services (default_handler jackson services)
  unfolding set_default_recommendation_options
  default_handler-Sets = record { quiet = refl; sets = sets }
    where
      sets :
          (value : Text) (s s' : Session jackson services)
          → set_default jackson services value s ≡ (none, s')
          → (hearts_of jackson services s' ≡ hearts_of jackson services s)
            × ShownFor jackson services value
                ((default_handler jackson services).current_value s'.user_data)
      sets [] s s' e =
          subst
            (λ z.
              (hearts_of jackson services z ≡ hearts_of jackson services s)
              × ShownFor jackson services []
                  ((default_handler jackson services).current_value z.user_data))
            (ap (λ x. x.1) e) (refl, inr (inl (refl, refl)))
      sets (c ∷ value) s s' e = go (services.parse_sampler_settings (c ∷ value) s.lang s.world) e
        where
          go :
              (o : Option Exception × langs.Lang)
              → after_parse jackson services (c ∷ value) s o ≡ (none, s')
              → (hearts_of jackson services s' ≡ hearts_of jackson services s)
                × ShownFor jackson services
                    (c ∷ value)
                    ((default_handler jackson services).current_value s'.user_data)
          go (some x, lang) e = absurd (some_not_none (ap (λ y. y.0) e))
            where
              some_not_none : some x ≡ none → ⊥
              some_not_none e = cc
          go (none, lang) e =
              subst
                (λ z.
                  (hearts_of jackson services z ≡ hearts_of jackson services s)
                  × ShownFor jackson services (c ∷ value)
                      ((default_handler jackson services).current_value z.user_data))
                (ap (λ y. y.1) e) (refl, inr (inr ((λ q. cc), refl)))

  v2_sets :
      ((u v : ℕ) (w : World)
        → services.hearts u (services.force_update_top_scores v w).1 ≡ services.hearts u w)
      → (b : Bool) (s s' : Session jackson services)
      → set_v2_boolean jackson services b s ≡ (none, s')
      → (hearts_of jackson services s' ≡ hearts_of jackson services s) × (s'.user_data.saved.v2 ≡ b)
  unfolding set_v2
  v2_sets f b s s' e =
      go (save_user_data langs jackson services.new_instance (set_v2 langs b s.user_data) s.table)
        (save_user_data-SameSettings langs jackson services.new_instance
          (set_v2 langs b s.user_data) s.table)
        e
    where
      go :
          (o : Option (UserData langs × Table langs))
          → ((r : UserData langs × Table langs)
              → o ≡ some r
              → (r.0.userid ≡ s.user_data.userid)
                × SameSettings langs r.0.saved (set_v2 langs b s.user_data).saved)
          → after_save jackson services (set_v2 langs b s.user_data) s o ≡ (none, s')
          → (hearts_of jackson services s' ≡ hearts_of jackson services s)
            × (s'.user_data.saved.v2 ≡ b)
      go none k e = absurd (some_not_none (ap (λ y. y.0) e))
        where
          some_not_none : some runtime ≡ none → ⊥
          some_not_none e = cc
      go (some r) k e =
          let l = k r refl in
          let w = services.force_update_top_scores r.0.userid s.world in
          subst
            (λ z.
              (hearts_of jackson services z ≡ hearts_of jackson services s)
              × (z.user_data.saved.v2 ≡ b))
            (ap (λ y. y.1) e)
            (
              f r.0.userid r.0.userid s.world ∙ ap (λ u. services.hearts u s.world) l.0,
              ap (λ x. x.v2) l.1,
            )

  set_data-law :
      (set : Bool → UserData langs → UserData langs) (get : UserData langs → Bool)
      → ((b : Bool) (d : UserData langs) → ((set b d).userid ≡ d.userid) × (get (set b d) ≡ b))
      → (b : Bool) (s s' : Session jackson services)
      → set_data jackson services (set b s.user_data) s ≡ (none, s')
      → (hearts_of jackson services s' ≡ hearts_of jackson services s) × (get s'.user_data ≡ b)
  set_data-law set get law b s s' e =
      let l = law b s.user_data in
      subst
        (λ z. (hearts_of jackson services z ≡ hearts_of jackson services s) × (get z.user_data ≡ b))
        (ap (λ y. y.1) e) (ap (λ u. services.hearts u s.world) l.0, l.1)

  pub option_handlers-Sets :
      ((u v : ℕ) (w : World)
        → services.hearts u (services.force_update_top_scores v w).1 ≡ services.hearts u w)
      → (rest : List (OptionHandler jackson services)) × (option_handlers jackson services
          ≡ lang_handler jackson services ∷ rest)
        × All (Sets jackson services) rest
  unfolding option_handlers set_show_welcome_message set_osu_track_welcome_enabled
      set_show_map_meta_data_on_recommendation
  option_handlers-Sets f =
      let welcome =
        set_data-law (set_show_welcome_message langs) (λ d. d.saved.show_welcome_message)
          (λ b d. (refl, refl)) in
      let track =
        set_data-law (set_osu_track_welcome_enabled langs) (λ d. d.saved.osu_track_welcome_enabled)
          (λ b d. (refl, refl)) in
      let meta_data =
        set_data-law (set_show_map_meta_data_on_recommendation langs)
          (λ d. d.saved.show_map_meta_data_on_recommendation) (λ b d. (refl, refl)) in
      (
        _,
        refl,
        (
          boolean_handler-Sets _ _ _ _ _ welcome,
          (
            boolean_handler-Sets _ _ _ _ _ track,
            (
              default_handler-Sets,
              (
                boolean_handler-Sets _ _ _ _ _ meta_data,
                (boolean_handler-Sets _ _ _ _ _ (v2_sets f), tt),
              ),
            ),
          ),
        ),
      )
