-- ===== src/Recommend/Request/Verified.antt =====
-- What an accepted RecommendationRequest satisfies.
use tillerinobot.Prelude.{
  ℕ, ◌≡◌, refl, Bool, true, false, not, ◌&&◌, Option, none, some, List, [], ◌∷◌, ◌++◌, All,
  All-append, ◌==◌, arith, Bool-cases, inl, inr, subst,
}
use tillerinobot.Recommend.Settings.{
  Library, Model, RecommendationPredicate, Request, Parsing, accepted, refused, and_then,
  contradicts, initial, regular, or_else, or_refuse, split, with_engine,
}
use tillerinobot.Recommend.Request.{
  contradicts_request, parse_engines, parse_mods, try_parse, check_against, with_predicate,
  parse_predicates, parse_other, parse_setting, parse_settings, verify_predicates, verify,
  parse_sampler_settings, with_mods,
}

-- What holds of the changed request if a method returns true.
abbrev Changed : {A : Type 0} → (A → Type 0) → Option A → Type 0
Changed P none = Unit {0}
Changed P (some r) = P r

module _ {Mod : Type 0} where
  -- No predicate contradicts one that was given after it.
  abbrev pub Consistent : List (RecommendationPredicate Mod) → Type 0
  Consistent [] = Unit {0}
  Consistent (p ∷ ps) = All (λ q. contradicts p q ≡ false) ps × Consistent ps

  Consistent-append :
      (ps : List (RecommendationPredicate Mod)) (p : RecommendationPredicate Mod)
      → Consistent ps
      → All (λ q. contradicts q p ≡ false) ps
      → Consistent (ps ++ (p ∷ []))
  Consistent-append [] p c h = (tt, tt)
  Consistent-append (q ∷ ps) p c h = (
    All-append (λ r. contradicts q r ≡ false) ps (p ∷ []) c.0 (h.0, tt),
    Consistent-append ps p c.1 h.1,
  )

  -- What holds of the result of a method if it accepts.
  abbrev Holds : {A : Type 0} → (A → Type 0) → Parsing Mod A → Type 0
  Holds P (accepted a) = P a
  Holds P (refused e) = Unit {0}

  Holds-map :
      {A : Type 0} (P Q : A → Type 0) (m : Parsing Mod A)
      → ((a : A) → P a → Q a)
      → Holds P m
      → Holds Q m
  Holds-map P Q (accepted a) f h = f a h
  Holds-map P Q (refused e) f h = tt

  Holds-and_then :
      {A B : Type 0} (P : A → Type 0) (Q : B → Type 0) (m : Parsing Mod A) (f : A → Parsing Mod B)
      → Holds P m
      → ((a : A) → P a → Holds Q (f a))
      → Holds Q (and_then m f)
  Holds-and_then P Q (accepted a) f h k = k a h
  Holds-and_then P Q (refused e) f h k = tt

  Holds-or_else :
      (P : Request Mod → Type 0) (found : Option (Request Mod)) (other : Parsing Mod (Request Mod))
      → Changed P found
      → Holds P other
      → Holds P (or_else found other)
  Holds-or_else P none other h k = k
  Holds-or_else P (some r) other h k = h

  Holds-or_refuse :
      (P : Request Mod → Type 0) (setting : List ℕ) (found : Option (Request Mod))
      → Changed P found
      → Holds P (or_refuse setting found)
  Holds-or_refuse P setting none h = tt
  Holds-or_refuse P setting (some r) h = h

  accepted-injective :
      {A : Type 0} {a b : A} → ◌≡◌ {A = Parsing Mod A} (accepted a) (accepted b) → a ≡ b
  accepted-injective e = cc

  Holds-accepted :
      {A : Type 0} (P : A → Type 0) (m : Parsing Mod A) (a : A) → Holds P m → m ≡ accepted a → P a
  Holds-accepted P (accepted b) a h e = subst P (accepted-injective e) h
  Holds-accepted P (refused b) a h e = ground arith

  -- While the settings are read: the predicates are consistent, and only a donator has any, or a shift.
  abbrev Kept : Bool → Request Mod → Type 0
  Kept true r = Consistent r.predicates
  Kept false r = (r.predicates ≡ []) × (r.difficulty_shift ≡ regular)

module _ {Mod : Type 0} (library : Library Mod) where
  with_engine-Kept :
      (donator : Bool) (r : Request Mod)
      → Kept donator r
      → (m : Option Model) → Changed (Kept donator) (with_engine m r)
  with_engine-Kept true r k none = tt
  with_engine-Kept true r k (some m) = k
  with_engine-Kept false r k none = tt
  with_engine-Kept false r k (some m) = k

  parse_engines-Kept :
      (donator : Bool) (s : List ℕ) (r : Request Mod)
      → Kept donator r
      → Changed (Kept donator) (parse_engines library s r)
  unfolding parse_engines
  parse_engines-Kept donator s r k = with_engine-Kept donator r k _

  with_mods-Kept :
      (donator : Bool) (r : Request Mod)
      → Kept donator r
      → (m : Option ℕ) → Changed (Kept donator) (with_mods library m r)
  with_mods-Kept true r k none = tt
  with_mods-Kept true r k (some m) = ground arith
  with_mods-Kept false r k none = tt
  with_mods-Kept false r k (some m) = ground arith

  parse_mods-Kept :
      (donator : Bool) (s : List ℕ) (r : Request Mod)
      → Kept donator r
      → Changed (Kept donator) (parse_mods library s r)
  unfolding parse_mods
  parse_mods-Kept true s r k = ground (arith, with_mods-Kept true r k)
  parse_mods-Kept false s r k = ground (arith, with_mods-Kept false r k)

  parse_other-Kept :
      (donator : Bool) (s : List ℕ) (r : Request Mod)
      → Kept donator r
      → Changed (Kept donator) (parse_other library donator s r)
  unfolding parse_other
  parse_other-Kept true s r k = ground arith
  parse_other-Kept false s r k = tt

  check_against-Holds :
      (ps : List (RecommendationPredicate Mod)) (p : RecommendationPredicate Mod)
      → Holds (λ _. All (λ q. contradicts q p ≡ false) ps) (check_against library ps p)
  unfolding check_against
  check_against-Holds [] p = tt
  check_against-Holds (q ∷ ps) p = elim (Bool-cases (contradicts q p)) [
    | inl c ↦ rw c tt
    | inr c ↦
        rw c
          (Holds-map _ _ (check_against library ps p) (λ _ h. (refl, h)) (check_against-Holds ps p))
  ]

  with_predicate-Holds :
      (r : Request Mod) (p : Option (RecommendationPredicate Mod))
      → Consistent r.predicates
      → Holds (Changed (Kept true)) (with_predicate library r p)
  unfolding with_predicate
  with_predicate-Holds r none k = tt
  with_predicate-Holds r (some p) k =
      Holds-and_then _ _ (check_against library r.predicates p) _
        (check_against-Holds r.predicates p) (λ _ h. Consistent-append r.predicates p k h)

  always : {A : Type 0} (m : Parsing Mod A) → Holds (λ _. Unit {0}) m
  always (accepted a) = tt
  always (refused e) = tt

  parse_predicates-Holds :
      (donator : Bool) (s : List ℕ) (r : Request Mod)
      → Kept donator r
      → Holds (Changed (Kept donator)) (parse_predicates library donator s r)
  unfolding parse_predicates
  parse_predicates-Holds true s r k =
      Holds-and_then _ _ (try_parse library s) _ (always (try_parse library s))
        (λ p _. with_predicate-Holds r p k)
  parse_predicates-Holds false s r k = tt

  parse_setting-Holds :
      (donator : Bool) (s : List ℕ) (r : Request Mod)
      → Kept donator r
      → Holds (Kept donator) (parse_setting library donator s r)
  unfolding parse_setting
  parse_setting-Holds donator s r k =
      Holds-or_else _ (parse_engines library s r) _ (parse_engines-Kept donator s r k) (
        Holds-or_else _ (parse_mods library s r) _ (parse_mods-Kept donator s r k) (
          Holds-and_then _ _ (parse_predicates library donator s r) _
            (parse_predicates-Holds donator s r k)
            (λ found h. Holds-or_else _ found _ h (
              Holds-or_refuse _ s (parse_other library donator s r)
                (parse_other-Kept donator s r k)))))

  parse_settings-Holds :
      (donator : Bool) (settings : List (List ℕ)) (r : Request Mod)
      → Kept donator r
      → Holds (Kept donator) (parse_settings library donator settings r)
  unfolding parse_settings
  parse_settings-Holds donator [] r k = k
  parse_settings-Holds donator ([] ∷ rest) r k = parse_settings-Holds donator rest r k
  parse_settings-Holds donator ((c ∷ s) ∷ rest) r k =
      Holds-and_then _ _ (parse_setting library donator (c ∷ s) r) _
        (parse_setting-Holds donator (c ∷ s) r k) (parse_settings-Holds donator rest)

  -- Of an accepted request: `nomod` excludes mods, no predicate contradicts the request or a later
  -- predicate, and a user who is not a donator has no predicate and no shift.
  abbrev pub Verified : Bool → Request Mod → Type 0
  Verified donator r =
      ((r.nomod && not (r.requested_mods == 0)) ≡ false)
      × (All (λ p. contradicts_request library r p ≡ false) r.predicates)
      × Kept donator r

  verify_predicates-Holds :
      (ps : List (RecommendationPredicate Mod)) (r : Request Mod)
      → Holds
          (λ s. (r ≡ s) × All (λ p. contradicts_request library r p ≡ false) ps)
          (verify_predicates library ps r)
  unfolding verify_predicates
  verify_predicates-Holds [] r = (refl, tt)
  verify_predicates-Holds (p ∷ ps) r = elim (Bool-cases (contradicts_request library r p)) [
    | inl c ↦ rw c tt
    | inr c ↦ rw c (
        Holds-map _ _ (verify_predicates library ps r) (λ _ h. (h.0, (refl, h.1)))
          (verify_predicates-Holds ps r))
  ]

  verify-Holds :
      (donator : Bool) (r : Request Mod)
      → Kept donator r
      → Holds (Verified donator) (verify library r)
  unfolding verify
  verify-Holds donator r k = elim (Bool-cases (r.nomod && not (r.requested_mods == 0))) [
    | inl c ↦ rw c tt
    | inr c ↦ rw c (
        Holds-map _ _ (verify_predicates library r.predicates r)
          (λ s h. subst (Verified donator) h.0 (c, h.1, k))
          (verify_predicates-Holds r.predicates r))
  ]

  Kept-initial : (donator : Bool) → Kept donator (initial {Mod = Mod})
  Kept-initial true = tt
  Kept-initial false = (refl, refl)

  -- If the settings that a user types are accepted, the request is verified: `nomod` excludes mods, no
  -- predicate contradicts a later one, the requested mods, or, for a star difficulty, that mods are
  -- requested at all, and a user who is not a donator has neither predicates nor a shift.
  pub parse_sampler_settings-Verified :
      (donator : Bool) (message : List ℕ) (r : Request Mod)
      → parse_sampler_settings library donator message ≡ accepted r
      → Verified donator r
  unfolding parse_sampler_settings
  parse_sampler_settings-Verified donator message r e =
      Holds-accepted _ (parse_sampler_settings library donator message) r
        (Holds-and_then _ _ (parse_settings library donator (split message) initial) _
          (parse_settings-Holds donator (split message) initial (Kept-initial donator))
          (verify-Holds donator))
        e
