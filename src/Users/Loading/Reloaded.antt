-- ===== src/Users/Loading/Reloaded.antt =====
-- What a later load sees of the changes that were made to the data of a user.
use tillerinobot.Prelude.{
  ℕ, ◌≡◌, refl, Bool, true, false, Option, none, some, ◌||◌, Bool-cases, inl, inr, sym, subst,
  some_injective,
}
use tillerinobot.Users.Language.{LanguageIdentifier}
use tillerinobot.Users.{Saved, Languages, UserData, is_changed, language_of, language_modified}
use tillerinobot.Users.Loading.{Jackson, Table, read_row, loaded, load_user_data, save_user_data}
use tillerinobot.Users.Loading.Rows.{
  RoundTrips, Reloads, Remembered-unmodified, save_user_data_lem, save_user_data_unchanged,
  written-Reloads, unchanged-Reloads,
}
use tillerinobot.Users.Keeping.{Lawful, Kept, Change, Change-Kept, language_of-Kept}

module _ (langs : Languages) where
  open langs use {Lang, Json}

  module _ (jackson : Jackson langs) where
    module _ {of_class : LanguageIdentifier → Lang → Type 0} (lawful : Lawful langs of_class) where
      -- The data are read, changed, and closed.
      pub data Changes : UserData langs → UserData langs → Type 1 where
        nothing : {d : UserData langs} → Changes d d
        more : {d e f : UserData langs} → Changes d e → Change langs of_class e f → Changes d f

      load_user_data_inv :
          (userid : ℕ) (table : Table langs) (d : UserData langs)
          → load_user_data langs jackson userid table ≡ some d
          → (s : Saved Json) × (read_row langs jackson (table userid) ≡ some s)
            × (d ≡ loaded langs jackson userid s)
      unfolding load_user_data
      load_user_data_inv userid table d h = go (read_row langs jackson (table userid)) h
        where
          go :
              (o : Option (Saved Json))
              → elim o [ none ↦ none | some s ↦ some (loaded langs jackson userid s) ] ≡ some d
              → (s : Saved Json) × (o ≡ some s) × (d ≡ loaded langs jackson userid s)
          go none h = cc
          go (some s) h = (s, refl, sym (some_injective h))

      loaded-Kept :
          (userid : ℕ) (table : Table langs) (d : UserData langs)
          → load_user_data langs jackson userid table ≡ some d
          → Kept langs of_class jackson table d
      loaded-Kept userid table d h =
          let r = load_user_data_inv userid table d h in
          subst (λ e. Kept langs of_class jackson table e) (sym r.2)
            (record { fields = λ c. r.1; in_use = tt })

      Changes-Kept :
          {d e : UserData langs} (table : Table langs)
          → Changes d e
          → Kept langs of_class jackson table d
          → Kept langs of_class jackson table e
      Changes-Kept table nothing k = k
      Changes-Kept table (more cs c) k =
          Change-Kept langs of_class lawful jackson table c (Changes-Kept table cs k)

      -- What a constructor of a language makes is of its class, and not modified.
      abbrev pub Constructs : (LanguageIdentifier → Lang) → Type 0
      Constructs new_instance =
          (id : LanguageIdentifier)
          → of_class id (new_instance id) × (langs.is_modified (new_instance id) ≡ false)

      language_of_unmodified :
          (new_instance : LanguageIdentifier → Lang) (d : UserData langs) (l : Lang)
          → Constructs new_instance
          → language_modified langs d.language ≡ false
          → language_of langs new_instance d ≡ some l
          → langs.is_modified l ≡ false
      language_of_unmodified new_instance d l c m e =
          go d.saved.language_identifier d.saved.serialized_language d.language m e
        where
          go :
              (id : LanguageIdentifier) (json : Option Json) (o : Option Lang)
              → language_modified langs o ≡ false
              → elim o [
                | some l ↦ some l
                | none ↦ elim json [
                  | some j ↦ langs.tree_to_value id j
                  | none ↦ some (new_instance id)
                ]
              ]
                ≡ some l
              → langs.is_modified l ≡ false
          go id json (some x) m e = subst (λ y. langs.is_modified y ≡ false) (some_injective e) m
          go id (some json) none m e = (lawful.read id json l e).1
          go id none none m e = subst (λ y. langs.is_modified y ≡ false) (some_injective e) (c id).1

      both_false : (a b : Bool) → a || b ≡ false → (a ≡ false) × (b ≡ false)
      both_false false b h = (refl, h)
      both_false true b h = cc

      Kept-Reloads :
          (new_instance new_instance' : LanguageIdentifier → Lang) (d : UserData langs)
          (table : Table langs) (l : Lang)
          → RoundTrips langs jackson
          → Constructs new_instance
          → Kept langs of_class jackson table d
          → language_of langs new_instance d ≡ some l
          → (r : UserData langs × Table langs) × (save_user_data langs jackson new_instance d table
              ≡ some r)
            × Reloads langs jackson lawful new_instance' d l table r
      unfolding is_changed
      Kept-Reloads new_instance new_instance' d table l t c k e =
          let used =
            language_of-Kept langs of_class lawful jackson table new_instance d l (λ id. (c id).0) k
              e in
          elim (Bool-cases (is_changed langs d)) [
            | inl h ↦ (
              _,
              save_user_data_lem langs jackson new_instance d table l h e,
              written-Reloads langs jackson lawful t new_instance' d table l used
                  (Remembered-unmodified langs jackson lawful new_instance d l e),
            )
            | inr h ↦
                let b = both_false d.changed (language_modified langs d.language) h in
                let m = language_of_unmodified new_instance d l c b.1 e in
                (
                  _,
                  save_user_data_unchanged langs jackson new_instance d table h,
                  unchanged-Reloads langs jackson lawful t new_instance' d table l used m
                      (Remembered-unmodified langs jackson lawful new_instance d l e m)
                      (k.fields b.0),
                )
          ]

      -- Data of a user that were loaded and changed in any way can be saved if their language can be
      -- read, and a later load sees all settings as they were set last, and the language as it was
      -- left, if it is remembered; the rows of other users do not change. This is so if Jackson
      -- reads what it has written, and if the languages tell when they are modified.
      pub save_user_data-Reloads :
          (new_instance new_instance' : LanguageIdentifier → Lang) (userid : ℕ)
          (d e : UserData langs) (table : Table langs) (l : Lang)
          → RoundTrips langs jackson
          → Constructs new_instance
          → load_user_data langs jackson userid table ≡ some d
          → Changes d e
          → language_of langs new_instance e ≡ some l
          → (r : UserData langs × Table langs) × (save_user_data langs jackson new_instance e table
              ≡ some r)
            × Reloads langs jackson lawful new_instance' e l table r
      save_user_data-Reloads new_instance new_instance' userid d e table l t c h cs q =
          Kept-Reloads new_instance new_instance' e table l t c
            (Changes-Kept table cs (loaded-Kept userid table d h)) q
