-- ===== src/Bot/Messages/Version.antt =====
-- How often `checkVersionInfo` greets a user.
use tillerinobot.Prelude.{ℕ, ◌≡◌, ◌≢◌, refl, false, List, ap, ◌∙◌, inl, inr, Bool-cases, subst, sym}
use tillerinobot.Prelude.Int.{ℤ, ltb_ℤ}
use tillerinobot.Exceptions.{Exception}
use tillerinobot.Chat.Response.{Response, no_response}
use tillerinobot.Bot.{Outcome, ok, throws, Bot, bind, Services, pure}
use tillerinobot.Bot.Messages.{greet, check_version_info, current_version}

ok-injective : {A : Type 0} {a b : A} → ok a ≡ ok b → a ≡ b
ok-injective h = cc

ok-ne-throws : {A : Type 0} {a : A} {e : Exception} → ok a ≢ throws e
ok-ne-throws h = cc

module _ {W : Type 0} (services : Services W) where
  -- The table of versions: what was written or read last is read again.
  pub record RemembersVersion : Type 0 where
    pub written :
        (nick : List ℕ) (v : ℤ) (s s' : Bot W)
        → services.set_last_visited_version nick v s ≡ (ok tt, s')
        → (services.get_last_visited_version nick s').0 ≡ ok v
    pub kept :
        (nick : List ℕ) (v : ℤ) (s s' : Bot W)
        → services.get_last_visited_version nick s ≡ (ok v, s')
        → (services.get_last_visited_version nick s').0 ≡ ok v

  greet-up_to_date :
      (nick : List ℕ) (v : ℤ) (x : Outcome ℤ × Bot W)
      → x.0 ≡ ok v
      → ltb_ℤ v current_version ≡ false
      → (bind x (greet services nick)).0 ≡ ok no_response
  unfolding greet
  greet-up_to_date nick v (ok u, s) h c =
      subst (λ w. (bind (ok w, s) (greet services nick)).0 ≡ ok no_response) (sym (ok-injective h))
        (rw c)
  greet-up_to_date nick v (throws e, s) h c = cc

  after_set :
      RemembersVersion
      → (nick : List ℕ) (r q : Response) (s s' : Bot W) (x : Outcome (Unit {0}) × Bot W)
      → services.set_last_visited_version nick current_version s ≡ x
      → bind x (λ _. pure q) ≡ (ok r, s')
      → (services.get_last_visited_version nick s').0 ≡ ok current_version
  after_set m nick r q s s' (ok tt, t) e h =
      m.written nick current_version s s' (e ∙ ap (λ u. (ok tt, u)) (ap (λ y. y.1) h))
  after_set m nick r q s s' (throws x, t) e h = absurd (ok-ne-throws (ap (λ y. y.0) (sym h)))

  after_get :
      RemembersVersion
      → (nick : List ℕ) (r : Response) (s s' : Bot W) (x : Outcome ℤ × Bot W)
      → services.get_last_visited_version nick s ≡ x
      → bind x (greet services nick) ≡ (ok r, s')
      → (v : ℤ) × ((services.get_last_visited_version nick s').0 ≡ ok v)
        × (ltb_ℤ v current_version ≡ false)
  unfolding greet
  after_get m nick r s s' (ok v, t) e h = elim (Bool-cases (ltb_ℤ v current_version)) [
    | inl old ↦ (current_version, after_set m nick r _ t s' _ refl (rw old at h), refl)
    | inr new ↦ (v, m.kept nick v s s' (e ∙ ap (λ u. (ok v, u)) (ap (λ y. y.1) (rw new at h))), new)
  ]
  after_get m nick r s s' (throws x, t) e h = absurd (ok-ne-throws (ap (λ y. y.0) (sym h)))

  -- When `checkVersionInfo` has returned, calling it again finds nothing to tell the user.
  pub check_version_info_once :
      RemembersVersion
      → (nick : List ℕ) (r : Response) (s s' : Bot W)
      → check_version_info services nick s ≡ (ok r, s')
      → (check_version_info services nick s').0 ≡ ok no_response
  unfolding check_version_info
  check_version_info_once m nick r s s' h =
      let (v, read, current) = after_get m nick r s s' _ refl h in
      greet-up_to_date nick v (services.get_last_visited_version nick s') read current
