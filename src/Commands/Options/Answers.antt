-- ===== src/Commands/Options/Answers.antt =====
-- What is answered when an option is set and shown.
use tillerinobot.Prelude.{
  ◌≡◌, ◌≢◌, refl, sym, ap, subst, ◌∙◌, ℕ, Bool, false, Option, none, some, List, [], ◌∷◌, ◌++◌,
  codes, All, ◌⊎◌, inl, inr, if◌then◌else◌, Bool-cases,
}
use tillerinobot.Exceptions.{Exception}
use tillerinobot.Chat.Response.{Response, message}
use tillerinobot.Commands.{Text, Handled, not_handled, response, throws}
use tillerinobot.Commands.Options.{
  Services, Session, OptionHandler, parse_boolean, on_off, should_handle, handle_get, handle_option,
  response_after_set, after_set, or_next, ask_handlers,
}
use tillerinobot.Users.{Languages}
use tillerinobot.Users.Loading.{Jackson}

module _ {langs : Languages} (jackson : Jackson langs) {World : Type 0}
    (services : Services langs World) where
  -- What an option shows after it was set to a text.
  abbrev pub ShownFor : Text → Text → Type 0
  ShownFor value t =
      ((b : Bool) × (parse_boolean value ≡ some b) × (t ≡ on_off b))
      ⊎ (((value ≡ []) × (t ≡ codes "-")) ⊎ ((value ≢ []) × (t ≡ value)))

  abbrev pub hearts_of : Session jackson services → ℕ
  hearts_of s = services.hearts s.user_data.userid s.world

  -- A handler that sets what it shows, without a change of the donations.
  pub record Sets (h : OptionHandler jackson services) : Type 0 where
    pub quiet : h.comments_on_language ≡ false
    pub sets :
        (value : Text) (s s' : Session jackson services)
        → h.handle_set value s ≡ (none, s')
        → (hearts_of s' ≡ hearts_of s) × ShownFor value (h.current_value s'.user_data)

  -- The answer shows the value, the state is the same for who may see the option, and the option
  -- is shown in the same way from then on.
  abbrev pub Answered :
      List (OptionHandler jackson services)
      → Text
      → Text
      → Session jackson services
      → Response
      → Session jackson services
      → Type 0
  Answered hs option value s r s' =
      (hearts_of s' ≡ hearts_of s)
      × ((description : Text) × (t : Text) × (r
            ≡ message (services.to_string (description ++ (codes ": " ++ t))))
          × ShownFor value t)
      × (ask_handlers jackson services hs option none s' ≡ (response r, s'))

  after_set-Answered :
      (h : OptionHandler jackson services) (value : Text) (s : Session jackson services)
      (r : Response) (s' : Session jackson services)
      → Sets h
      → after_set jackson services h (h.handle_set value s) ≡ (response r, s')
      → (hearts_of s' ≡ hearts_of s)
        × ShownFor value (h.current_value s'.user_data)
        × (handle_get jackson services h s' ≡ response r)
  unfolding response_after_set
  after_set-Answered h value s r s' c e = go (h.handle_set value s) (c.sets value s) e
    where
      throws_not_response : {x : Exception} → throws x ≡ response r → ⊥
      throws_not_response e = cc

      quiet_answer :
          (z : Session jackson services)
          → response_after_set jackson services h z ≡ (handle_get jackson services h z, z)
      quiet_answer z = rw c.quiet refl

      go :
          (o : Option Exception × Session jackson services)
          → ((s1 : Session jackson services)
              → o ≡ (none, s1)
              → (hearts_of s1 ≡ hearts_of s) × ShownFor value (h.current_value s1.user_data))
          → after_set jackson services h o ≡ (response r, s')
          → (hearts_of s' ≡ hearts_of s)
            × ShownFor value (h.current_value s'.user_data)
            × (handle_get jackson services h s' ≡ response r)
      go (some x, s1) f e = absurd (throws_not_response (ap (λ p. p.0) e))
      go (none, s1) f e =
          let p : (handle_get jackson services h s1, s1) ≡ (response r, s') =
            sym (quiet_answer s1) ∙ e in
          let q = ap (λ p. p.1) p in
          let k = f s1 refl in
          (
            subst (λ z. hearts_of z ≡ hearts_of s) q k.0,
            subst (λ z. ShownFor value (h.current_value z.user_data)) q k.1,
            subst (λ z. handle_get jackson services h z ≡ response r) q (ap (λ p. p.0) p),
          )

  after_set-handled :
      (h : OptionHandler jackson services)
      → h.comments_on_language ≡ false
      → (o : Option Exception × Session jackson services)
      → (after_set jackson services h o).0 ≢ not_handled
  unfolding response_after_set handle_get
  after_set-handled h q (some x, s) = λ e. cc
  after_set-handled h q (none, s) = rw q (λ e. cc)

  or_next_response :
      (x : Handled × Session jackson services)
      (rest : Session jackson services → Handled × Session jackson services) (r : Response)
      (s : Session jackson services)
      → x.0 ≢ not_handled
      → or_next jackson services x rest ≡ (response r, s)
      → x ≡ (response r, s)
  or_next_response (not_handled, z) rest r s n e = absurd (n refl)
  or_next_response (response q, z) rest r s n e = e
  or_next_response (throws q, z) rest r s n e = e

  response_injective : {q r : Response} → response q ≡ response r → q ≡ r
  response_injective e = cc

  -- Some handler of a list answers a command that sets an option.
  pub ask_handlers-Answered :
      (hs : List (OptionHandler jackson services)) (option value : Text)
      (s : Session jackson services) (r : Response) (s' : Session jackson services)
      → All Sets hs
      → ask_handlers jackson services hs option (some value) s ≡ (response r, s')
      → Answered hs option value s r s'
  unfolding ask_handlers handle_option handle_get
  ask_handlers-Answered [] option value s r s' a e = cc
  ask_handlers-Answered (h ∷ hs) option value s r s' a e =
      elim (Bool-cases (should_handle jackson services h option (hearts_of s))) [
        | inl yes_ ↦
            let f = after_set-handled h (a.0).quiet (h.handle_set value s) in
            let x =
              or_next_response (after_set jackson services h (h.handle_set value s))
                (ask_handlers jackson services hs option (some value)) r s' f
                (subst
                  (λ b.
                    or_next jackson services
                      (if b
                        then after_set jackson services h (h.handle_set value s)
                        else (not_handled, s))
                      (ask_handlers jackson services hs option (some value))
                    ≡ (response r, s'))
                  yes_ e) in
            let i = after_set-Answered h value s r s' a.0 x in
            (
              i.0,
              (h.description, h.current_value s'.user_data, sym (response_injective i.2), i.1),
              rw i.0 (rw yes_ (ap (λ y. (y, s')) i.2)),
            )
        | inr no_ ↦
            let i = ask_handlers-Answered hs option value s r s' a.1 (
              subst
                (λ b.
                  or_next jackson services
                    (if b
                      then after_set jackson services h (h.handle_set value s)
                      else (not_handled, s))
                    (ask_handlers jackson services hs option (some value))
                  ≡ (response r, s'))
                no_ e) in
            (i.0, i.1, rw i.0 (rw no_ i.2))
      ]
