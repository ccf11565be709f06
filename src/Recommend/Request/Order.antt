-- ===== src/Recommend/Request/Order.antt =====
-- Settings in another order.
use tillerinobot.Prelude.{ℕ, ◌≡◌, ◌<◌, Bool, false, none, some, List, [], ◌∷◌, codes, arith}
use tillerinobot.Recommend.Settings.{
  Library, Model, Request, accepted, refused, invalid_setting, initial, is_mods_capable,
}
use tillerinobot.Recommend.Request.{
  engine, parse_engines, parse_mods, parse_predicates, parse_other, parse_setting, parse_settings,
}

module _ {Mod : Type 0} (library : Library Mod) where
  parse_engines-some :
      (s : List ℕ) (m : Model) (r : Request Mod)
      → engine library (library.to_lower_case s) ≡ some m
      → parse_engines library s r ≡ some (record r { model = m })
  unfolding parse_engines
  parse_engines-some s m r h = rw h

  parse_engines-none :
      (s : List ℕ) (r : Request Mod)
      → engine library (library.to_lower_case s) ≡ none
      → parse_engines library s r ≡ none
  unfolding parse_engines
  parse_engines-none s r h = rw h

  setting-engine :
      (donator : Bool) (s : List ℕ) (m : Model) (r : Request Mod)
      → engine library (library.to_lower_case s) ≡ some m
      → parse_setting library donator s r ≡ accepted (record r { model = m })
  unfolding parse_setting
  setting-engine donator s m r h = rw (parse_engines-some s m r h)

  setting-mods :
      (donator : Bool) (s : List ℕ) (r t : Request Mod)
      → engine library (library.to_lower_case s) ≡ none
      → parse_mods library s r ≡ some t
      → parse_setting library donator s r ≡ accepted t
  unfolding parse_setting
  setting-mods donator s r t h k = rw (parse_engines-none s r h, k)

  -- Without mods-capability only `nomod` is left of the settings for mods.
  parse_mods-incapable :
      (s : List ℕ) (r : Request Mod)
      → 2 < library.distance (library.to_lower_case s) (codes "nomod")
      → is_mods_capable r.model ≡ false
      → parse_mods library s r ≡ none
  unfolding parse_mods
  parse_mods-incapable s r far h = ground (arith, far, h)

  setting-incapable :
      (s : List ℕ) (r : Request Mod)
      → engine library (library.to_lower_case s) ≡ none
      → 2 < library.distance (library.to_lower_case s) (codes "nomod")
      → is_mods_capable r.model ≡ false
      → parse_setting library false s r ≡ refused (invalid_setting s)
  unfolding parse_setting parse_predicates parse_other
  setting-incapable s r h far k = rw (parse_engines-none s r h, parse_mods-incapable s r far k)

  -- Let one setting request mods and another select a model without mods, neither being both or
  -- "nomod", of a user who is not a donator. The mods before the model are accepted, and requested of
  -- that model; the model before the mods is refused.
  pub parse_settings-order :
      (c d : ℕ) (mods model : List ℕ) (m : Model) (r : Request Mod)
      → engine library (library.to_lower_case (c ∷ mods)) ≡ none
      → 2 < library.distance (library.to_lower_case (c ∷ mods)) (codes "nomod")
      → parse_mods library (c ∷ mods) initial ≡ some r
      → engine library (library.to_lower_case (d ∷ model)) ≡ some m
      → is_mods_capable m ≡ false
      → (parse_settings library false ((c ∷ mods) ∷ (d ∷ model) ∷ []) initial
          ≡ accepted (record r { model = m }))
        × (parse_settings library false ((d ∷ model) ∷ (c ∷ mods) ∷ []) initial
            ≡ refused (invalid_setting (c ∷ mods)))
  unfolding parse_settings
  parse_settings-order c d mods model m r e far p f k = (
    rw (setting-mods false (c ∷ mods) initial r e p, setting-engine false (d ∷ model) m r f),
    rw (
      setting-engine false (d ∷ model) m initial f,
      setting-incapable (c ∷ mods) (record initial { model = m }) e far k,
    ),
  )
