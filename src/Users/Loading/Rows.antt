-- ===== src/Users/Loading/Rows.antt =====
-- One save of the data of a user, and a load behind it.
use tillerinobot.Prelude.{
  ℕ, ◌≡◌, ◌≢◌, refl, true, false, Option, none, some, List, arith, if◌then◌else◌, Bool-cases, inl,
  inr, ◌⊎◌, ap, sym, ◌∙◌, some_injective,
}
use tillerinobot.Users.Language.{LanguageIdentifier}
use tillerinobot.Users.{
  Saved, Languages, UserData, is_changed, set_changed, language_of, language_modified,
  using_language,
}
use tillerinobot.Users.Loading.{
  Jackson, Table, set_row, read_row, loaded, load_user_data, save_user_data, written,
}
use tillerinobot.Users.Keeping.{Lawful, LanguageKept}

module _ (langs : Languages) where
  open langs use {Lang, Json}

  -- Jackson reads what it has written.
  pub record RoundTrips (jackson : Jackson langs) : Type 0 where
    pub read-write :
        (s : Saved Json) → read_row langs jackson (some (jackson.write_value_as_string s)) ≡ some s

  -- The fields but the serialised language.
  abbrev pub SameSettings : Saved Json → Saved Json → Type 0
  SameSettings s t =
      record s { serialized_language = none } ≡ record t { serialized_language = none }

  -- The fields that are written, for the language in use.
  abbrev pub stored : Saved Json → Lang → Saved Json
  stored s l =
      if langs.is_modified l
      then record s { serialized_language = some (langs.value_to_tree l) }
      else s

  module _ (jackson : Jackson langs) where
    pub save_user_data_lem :
        (new_instance : LanguageIdentifier → Lang) (d : UserData langs) (table : Table langs)
        (l : Lang)
        → is_changed langs d ≡ true
        → language_of langs new_instance d ≡ some l
        → save_user_data langs jackson new_instance d table
          ≡ some (
              written langs jackson table
                (record d { language = some l; saved = stored d.saved l }))
    unfolding save_user_data using_language
    save_user_data_lem new_instance d table l c e = elim (Bool-cases (langs.is_modified l)) [
      | inl m ↦ rw (c, e, m) refl
      | inr m ↦ rw (c, e, m) refl
    ]

    pub save_user_data_unchanged :
        (new_instance : LanguageIdentifier → Lang) (d : UserData langs) (table : Table langs)
        → is_changed langs d ≡ false
        → save_user_data langs jackson new_instance d table ≡ some (d, table)
    unfolding save_user_data
    save_user_data_unchanged new_instance d table c = rw c refl

    load_user_data_lem :
        (userid : ℕ) (table : Table langs) (s : Saved Json)
        → read_row langs jackson (table userid) ≡ some s
        → load_user_data langs jackson userid table ≡ some (loaded langs jackson userid s)
    unfolding load_user_data
    load_user_data_lem userid table s e = rw (load_user_data, e) refl

    set_row_other :
        (u v : ℕ) (text : List ℕ) (table : Table langs)
        → u ≢ v
        → set_row langs v text table u ≡ table u
    set_row_other u v text table n = ground (arith, n)

    set_row_same :
        (v : ℕ) (text : List ℕ) (table : Table langs) → set_row langs v text table v ≡ some text
    set_row_same v text table = ground arith

    module _ {of_class : LanguageIdentifier → Lang → Type 0} (lawful : Lawful langs of_class) where
      -- A language that is not modified is read again as it is.
      language_reloaded :
          (id : LanguageIdentifier) (json : Json) (l : Lang)
          → LanguageKept langs of_class id (some json) (some l)
          → langs.is_modified l ≡ false
          → langs.tree_to_value id json ≡ some (langs.clear_modified l)
      language_reloaded id json l k m = k.1 m ∙ ap some (sym (lawful.unmodified l m))

      -- The language is written or was written before.
      abbrev pub Remembered : UserData langs → Type 0
      Remembered d =
          (d.saved.serialized_language ≢ none) ⊎ (language_modified langs d.language ≡ true)

      -- What a load sees behind a save that leaves the data and the table like this: all settings,
      -- and the language `l` if it is remembered; the rows of other users are as they were.
      abbrev pub Reloads :
          (LanguageIdentifier → Lang)
          → UserData langs
          → Lang
          → Table langs
          → UserData langs × Table langs
          → Type 0
      Reloads new_instance d l table (saved, table') =
          (load_user_data langs jackson d.userid table'
            ≡ some (loaded langs jackson d.userid saved.saved))
          × SameSettings saved.saved d.saved
          × (Remembered d
              → language_of langs new_instance (loaded langs jackson d.userid saved.saved)
                ≡ some (langs.clear_modified l))
          × ((u : ℕ) → u ≢ d.userid → table' u ≡ table u)

      language_read :
          (new_instance : LanguageIdentifier → Lang) (userid : ℕ) (s : Saved Json) (l : Lang)
          → LanguageKept langs of_class s.language_identifier s.serialized_language (some l)
          → langs.is_modified l ≡ false
          → s.serialized_language ≢ none
          → language_of langs new_instance (loaded langs jackson userid s)
            ≡ some (langs.clear_modified l)
      language_read new_instance userid s l k m n = go s.serialized_language k n
        where
          go :
              (json : Option Json)
              → LanguageKept langs of_class s.language_identifier json (some l)
              → json ≢ none
              → elim json [
                | some j ↦ langs.tree_to_value s.language_identifier j
                | none ↦ some (new_instance s.language_identifier)
              ]
                ≡ some (langs.clear_modified l)
          go none k n = elim (n refl) [ ]
          go (some json) k n = language_reloaded s.language_identifier json l k m

      LanguageKept-of_class :
          (id : LanguageIdentifier) (json : Option Json) (l : Lang)
          → LanguageKept langs of_class id json (some l)
          → of_class id l
      LanguageKept-of_class id none l k = k
      LanguageKept-of_class id (some json) l k = k.0

      pub Remembered-unmodified :
          (new_instance : LanguageIdentifier → Lang) (d : UserData langs) (l : Lang)
          → language_of langs new_instance d ≡ some l
          → langs.is_modified l ≡ false
          → Remembered d
          → d.saved.serialized_language ≢ none
      Remembered-unmodified new_instance d l e m (inl n) = n
      Remembered-unmodified new_instance d l e m (inr n) = go d.language n e
        where
          true_not_false : true ≡ false → ⊥
          true_not_false h = cc

          go :
              (o : Option Lang)
              → language_modified langs o ≡ true
              → elim o [
                | some x ↦ some x
                | none ↦ language_of langs new_instance (record d { language = none })
              ]
                ≡ some l
              → d.saved.serialized_language ≢ none
          go none n e = cc
          go (some x) n e =
              absurd (true_not_false (sym n ∙ ap langs.is_modified (some_injective e) ∙ m))

      row_reloaded :
          (userid : ℕ) (table : Table langs) (s : Saved Json)
          → RoundTrips jackson
          → load_user_data langs jackson userid
              (set_row langs userid (jackson.write_value_as_string s) table)
            ≡ some (loaded langs jackson userid s)
      row_reloaded userid table s r =
          let row = set_row_same userid (jackson.write_value_as_string s) table in
          load_user_data_lem userid (set_row langs userid (jackson.write_value_as_string s) table) s
            (ap (read_row langs jackson) row ∙ r.read-write s)

      module _ (round_trips : RoundTrips jackson) (new_instance : LanguageIdentifier → Lang)
          (d : UserData langs) (table : Table langs) (l : Lang)
          (used : LanguageKept langs of_class d.saved.language_identifier
            d.saved.serialized_language
            (some l)) where
        pub written-Reloads :
            (langs.is_modified l ≡ false → Remembered d → d.saved.serialized_language ≢ none)
            → Reloads new_instance d l table (
                written langs jackson table
                  (record d { language = some l; saved = stored d.saved l }))
        unfolding set_changed
        written-Reloads r = elim (Bool-cases (langs.is_modified l)) [
          | inl m ↦ rw m (
            row_reloaded d.userid table
                (record d.saved { serialized_language = some (langs.value_to_tree l) }) round_trips,
            refl,
            (λ q. lawful.written d.saved.language_identifier l (
                LanguageKept-of_class d.saved.language_identifier d.saved.serialized_language l
                  used)),
            λ u n.
                set_row_other u d.userid
                  (jackson.write_value_as_string
                    (record d.saved { serialized_language = some (langs.value_to_tree l) }))
                  table n,
          )
          | inr m ↦ rw m (
            row_reloaded d.userid table d.saved round_trips,
            refl,
            (λ q. language_read new_instance d.userid d.saved l used m (r m q)),
            λ u n. set_row_other u d.userid (jackson.write_value_as_string d.saved) table n,
          )
        ]

        pub unchanged-Reloads :
            langs.is_modified l ≡ false
            → (Remembered d → d.saved.serialized_language ≢ none)
            → read_row langs jackson (table d.userid) ≡ some d.saved
            → Reloads new_instance d l table (d, table)
        unchanged-Reloads m r e = (
          load_user_data_lem d.userid table d.saved e,
          refl,
          (λ q. language_read new_instance d.userid d.saved l used m (r q)),
          λ u n. refl,
        )
