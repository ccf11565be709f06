-- ===== src/Users/Loading/Settings.antt =====
-- That saving the data of a user does not change what they set.
use tillerinobot.Prelude.{
  ◌≡◌, refl, sym, subst, ◌∙◌, true, none, some, inl, inr, Bool-cases, Option-cases, some_injective,
}
use tillerinobot.Users.Language.{LanguageIdentifier}
use tillerinobot.Users.{
  Languages, UserData, Saved, is_changed, set_changed, language_of, using_language,
}
use tillerinobot.Users.Loading.{Jackson, Table, save_user_data}
use tillerinobot.Users.Loading.Rows.{
  SameSettings, stored, save_user_data_lem, save_user_data_unchanged,
}

module _ (langs : Languages) (jackson : Jackson langs) where
  open langs use {Lang, Json}

  stored-SameSettings : (s : Saved Json) (l : Lang) → SameSettings langs (stored langs s l) s
  stored-SameSettings s l = elim (Bool-cases (langs.is_modified l)) [
    | inl m ↦ rw m refl
    | inr m ↦ rw m refl
  ]

  save_user_data_unreadable :
      (new_instance : LanguageIdentifier → Lang) (d : UserData langs) (table : Table langs)
      → is_changed langs d ≡ true
      → language_of langs new_instance d ≡ none
      → save_user_data langs jackson new_instance d table ≡ none
  unfolding save_user_data using_language
  save_user_data_unreadable new_instance d table c e = rw (c, e) refl

  pub save_user_data-SameSettings :
      (new_instance : LanguageIdentifier → Lang) (d : UserData langs) (table : Table langs)
      (r : UserData langs × Table langs)
      → save_user_data langs jackson new_instance d table ≡ some r
      → (r.0.userid ≡ d.userid) × SameSettings langs r.0.saved d.saved
  unfolding set_changed
  save_user_data-SameSettings new_instance d table r h = elim (Bool-cases (is_changed langs d)) [
    | inl c ↦ elim (Option-cases (language_of langs new_instance d)) [
      | inl e ↦
          absurd (none_not_some (sym (save_user_data_unreadable new_instance d table c e) ∙ h))
      | inr (l, e) ↦
          subst (λ x. (x.0.userid ≡ d.userid) × SameSettings langs x.0.saved d.saved)
            (some_injective (sym (save_user_data_lem langs jackson new_instance d table l c e) ∙ h))
            (refl, stored-SameSettings d.saved l)
    ]
    | inr c ↦
        subst (λ x. (x.0.userid ≡ d.userid) × SameSettings langs x.0.saved d.saved)
          (some_injective (sym (save_user_data_unchanged langs jackson new_instance d table c) ∙ h))
          (refl, refl)
  ]
    where
      none_not_some : none ≡ some r → ⊥
      none_not_some e = cc
