-- ===== src/Users/Keeping.antt =====
-- That the data of a user know whether they have changed.
use tillerinobot.Prelude.{
  ℕ, ◌≡◌, refl, Bool, true, false, not, ◌||◌, Option, none, some, List, Bool-cases, inl, inr, ap,
  sym, ◌∙◌, subst, some_injective,
}
use tillerinobot.Users.Language.{LanguageIdentifier, same}
use tillerinobot.Users.{
  BeatmapWithMods, Saved, Languages, UserData, same_option, same_beatmap, same_text, same_bool,
  set_allowed_to_debug, set_language, set_last_song_info, set_default_recommendation_options,
  set_show_welcome_message, set_osu_track_welcome_enabled, set_show_map_meta_data_on_recommendation,
  set_v2, language_of, using_language, applied,
}
use tillerinobot.Users.Loading.{Jackson, Table, read_row}
use tillerinobot.Users.Equality.{same_bool_lem, same_beatmap_lem, same_text_lem, same_option_lem}

module _ (langs : Languages) where
  open langs use {Lang, Json}

  -- What the methods of a language keep to: what is read from JSON is not modified, a language that
  -- is written can be read again, and `clear_modified` forgets only that it is modified.
  pub record Lawful (of_class : LanguageIdentifier → Lang → Type 0) : Type 0 where
    pub read :
        (id : LanguageIdentifier) (json : Json) (l : Lang)
        → langs.tree_to_value id json ≡ some l
        → of_class id l × (langs.is_modified l ≡ false)
    pub written :
        (id : LanguageIdentifier) (l : Lang)
        → of_class id l
        → langs.tree_to_value id (langs.value_to_tree l) ≡ some (langs.clear_modified l)
    pub cleared :
        (id : LanguageIdentifier) (l : Lang)
        → of_class id l
        → of_class id (langs.clear_modified l)
          × (langs.is_modified (langs.clear_modified l) ≡ false)
    pub unmodified : (l : Lang) → langs.is_modified l ≡ false → langs.clear_modified l ≡ l

  module _ (of_class : LanguageIdentifier → Lang → Type 0) where
    -- A task registers the modification before it changes the language.
    pub record Registers {A : Type 0} (task : Lang → A × Lang) : Type 0 where
      pub keeps : (id : LanguageIdentifier) (l : Lang) → of_class id l → of_class id (task l).1
      pub registers : (l : Lang) → langs.is_modified (task l).1 ≡ false → (task l).1 ≡ l

    -- The language in use is of the right class, and if it is not modified, it is what was read.
    abbrev pub LanguageKept : LanguageIdentifier → Option Json → Option Lang → Type 0
    LanguageKept id json none = Unit
    LanguageKept id none (some l) = of_class id l
    LanguageKept id (some json) (some l) =
        of_class id l × (langs.is_modified l ≡ false → langs.tree_to_value id json ≡ some l)

    -- Fields that have not changed are those of the row.
    pub record Kept (jackson : Jackson langs) (table : Table langs) (d : UserData langs)
        : Type 0 where
      pub fields : d.changed ≡ false → read_row langs jackson (table d.userid) ≡ some d.saved
      pub in_use : LanguageKept d.saved.language_identifier d.saved.serialized_language d.language

    -- A call of a setter, or a use of the language.
    pub data Change : UserData langs → UserData langs → Type 1 where
      debug : {d : UserData langs} (v : Bool) → Change d (set_allowed_to_debug langs v d)
      language : {d : UserData langs} (v : LanguageIdentifier) → Change d (set_language langs v d)
      song :
          {d : UserData langs} (v : Option BeatmapWithMods)
          → Change d (set_last_song_info langs v d)
      options :
          {d : UserData langs} (v : Option (List ℕ))
          → Change d (set_default_recommendation_options langs v d)
      welcome : {d : UserData langs} (v : Bool) → Change d (set_show_welcome_message langs v d)
      track : {d : UserData langs} (v : Bool) → Change d (set_osu_track_welcome_enabled langs v d)
      meta_data :
          {d : UserData langs} (v : Bool)
          → Change d (set_show_map_meta_data_on_recommendation langs v d)
      v2 : {d : UserData langs} (v : Bool) → Change d (set_v2 langs v d)
      uses :
          {d d' : UserData langs} {A : Type 0} {a : A} (new_instance : LanguageIdentifier → Lang)
          (task : Lang → A × Lang)
          → ((id : LanguageIdentifier) → of_class id (new_instance id))
          → Registers task
          → using_language langs new_instance task d ≡ some (a, d')
          → Change d d'

    unchanged : (c s : Bool) → c || not s ≡ false → (c ≡ false) × (s ≡ true)
    unchanged false true h = (refl, refl)
    unchanged false false h = (refl, sym h)
    unchanged true s h = (h, cc)

    module _ (lawful : Lawful of_class) (jackson : Jackson langs) (table : Table langs) where
      set_language-Kept :
          (v : LanguageIdentifier) (d : UserData langs)
          → Kept jackson table d
          → Kept jackson table (set_language langs v d)
      unfolding set_language
      set_language-Kept v d k = elim (Bool-cases (same d.saved.language_identifier v)) [
        | inl e ↦ rw e k
        | inr e ↦ rw e (record { fields = λ h. cc; in_use = tt })
      ]

      pub language_of-Kept :
          (new_instance : LanguageIdentifier → Lang) (d : UserData langs) (l : Lang)
          → ((id : LanguageIdentifier) → of_class id (new_instance id))
          → Kept jackson table d
          → language_of langs new_instance d ≡ some l
          → LanguageKept d.saved.language_identifier d.saved.serialized_language (some l)
      language_of-Kept new_instance d l c k e =
          go d.saved.language_identifier d.saved.serialized_language d.language k.in_use e
        where
          go :
              (id : LanguageIdentifier) (json : Option Json) (o : Option Lang)
              → LanguageKept id json o
              → elim o [
                | some l ↦ some l
                | none ↦ elim json [
                  | some j ↦ langs.tree_to_value id j
                  | none ↦ some (new_instance id)
                ]
              ]
                ≡ some l
              → LanguageKept id json (some l)
          go id json (some m) k e = subst (λ x. LanguageKept id json (some x)) (some_injective e) k
          go id none none k e = subst (of_class id) (some_injective e) (c id)
          go id (some j) none k e = let r = lawful.read id j l e in (r.0, λ u. e)

      used-Kept :
          (d : UserData langs) (l : Lang)
          → Kept jackson table d
          → LanguageKept d.saved.language_identifier d.saved.serialized_language (some l)
          → Kept jackson table (record d { language = some l })
      used-Kept d l k u = record { fields = k.fields; in_use = u }

      task-Kept :
          {A : Type 0} (task : Lang → A × Lang)
          → Registers task
          → (id : LanguageIdentifier) (json : Option Json) (l : Lang)
          → LanguageKept id json (some l)
          → LanguageKept id json (some (task l).1)
      task-Kept task r id none l k = r.keeps id l k
      task-Kept task r id (some j) l k = (
        r.keeps id l k.0,
        λ u.
            k.1 (subst (λ x. langs.is_modified x ≡ false) (r.registers l u) u)
            ∙ ap some (sym (r.registers l u)),
      )

      using_language_lem :
          {A : Type 0} (new_instance : LanguageIdentifier → Lang) (task : Lang → A × Lang)
          (d : UserData langs) (r : A × UserData langs)
          → using_language langs new_instance task d ≡ some r
          → (l : Lang) × (language_of langs new_instance d ≡ some l)
            × (r ≡ ((task l).0, record d { language = some (task l).1 }))
      unfolding using_language
      using_language_lem new_instance task d r h = go (language_of langs new_instance d) h
        where
          go :
              (o : Option Lang)
              → elim o [ none ↦ none | some l ↦ some (applied langs d (task l)) ] ≡ some r
              → (l : Lang) × (o ≡ some l)
                × (r ≡ ((task l).0, record d { language = some (task l).1 }))
          go none h = cc
          go (some l) h = (l, refl, sym (some_injective h))

      set-Kept :
          (d : UserData langs) (saved : Saved Json) (same : Bool)
          → (same ≡ true → d.saved ≡ saved)
          → LanguageKept saved.language_identifier saved.serialized_language d.language
          → Kept jackson table d
          → Kept jackson table (record d { changed = d.changed || not same; saved = saved })
      set-Kept d saved same e l k = record {
        fields = λ h. let u = unchanged d.changed same h in k.fields u.0 ∙ ap some (e u.1);
        in_use = l;
      }

      -- Every change keeps it: what differs from the row is known to have changed.
      pub Change-Kept :
          {d d' : UserData langs} → Change d d' → Kept jackson table d → Kept jackson table d'
      unfolding set_allowed_to_debug set_last_song_info set_default_recommendation_options
          set_show_welcome_message set_osu_track_welcome_enabled
          set_show_map_meta_data_on_recommendation set_v2
      Change-Kept {d} (language v) k = set_language-Kept v d k
      Change-Kept {d} (uses new_instance task c r h) k =
          let u = using_language_lem new_instance task d _ h in
          subst (λ e. Kept jackson table e) (sym (ap (λ e. e.1) u.2))
            (used-Kept d (task u.0).1 k (
              task-Kept task r d.saved.language_identifier d.saved.serialized_language u.0
                (language_of-Kept new_instance d u.0 c k u.1)))
      Change-Kept {d} (debug v) k =
          set-Kept d (record d.saved { allowed_to_debug = v })
            (same_bool v d.saved.allowed_to_debug)
            (λ e.
              ap (λ x. record d.saved { allowed_to_debug = x })
                (sym (same_bool_lem v d.saved.allowed_to_debug e)))
            k.in_use k
      Change-Kept {d} (song v) k =
          set-Kept d (record d.saved { last_song_info = v })
            (same_option same_beatmap d.saved.last_song_info v)
            (λ e.
              ap (λ x. record d.saved { last_song_info = x })
                (same_option_lem same_beatmap same_beatmap_lem d.saved.last_song_info v e))
            k.in_use k
      Change-Kept {d} (options v) k =
          set-Kept d (record d.saved { default_recommendation_options = v })
            (same_option same_text d.saved.default_recommendation_options v)
            (λ e.
              ap (λ x. record d.saved { default_recommendation_options = x })
                (same_option_lem same_text same_text_lem d.saved.default_recommendation_options v
                  e))
            k.in_use k
      Change-Kept {d} (welcome v) k =
          set-Kept d (record d.saved { show_welcome_message = v })
            (same_bool v d.saved.show_welcome_message)
            (λ e.
              ap (λ x. record d.saved { show_welcome_message = x })
                (sym (same_bool_lem v d.saved.show_welcome_message e)))
            k.in_use k
      Change-Kept {d} (track v) k =
          set-Kept d (record d.saved { osu_track_welcome_enabled = v })
            (same_bool v d.saved.osu_track_welcome_enabled)
            (λ e.
              ap (λ x. record d.saved { osu_track_welcome_enabled = x })
                (sym (same_bool_lem v d.saved.osu_track_welcome_enabled e)))
            k.in_use k
      Change-Kept {d} (meta_data v) k =
          set-Kept d (record d.saved { show_map_meta_data_on_recommendation = v })
            (same_bool v d.saved.show_map_meta_data_on_recommendation)
            (λ e.
              ap (λ x. record d.saved { show_map_meta_data_on_recommendation = x })
                (sym (same_bool_lem v d.saved.show_map_meta_data_on_recommendation e)))
            k.in_use k
      Change-Kept {d} (v2 v) k =
          set-Kept d (record d.saved { v2 = v }) (same_bool v d.saved.v2)
            (λ e. ap (λ x. record d.saved { v2 = x }) (sym (same_bool_lem v d.saved.v2 e))) k.in_use
            k
