-- ===== src/Users/Loading.antt =====
-- `loadUserData`, `saveUserData` and `close` of UserDataManager.java, for the table of the users'
-- data, by their ids, and Jackson's text of the data.
pub mod Rows
pub mod Reloaded
pub mod Settings
mod Tests
use tillerinobot.Prelude.{
  ℕ, Bool, true, false, Option, none, some, List, [], ◌∷◌, if◌then◌else◌, ◌==◌,
}
use tillerinobot.Users.Language.{LanguageIdentifier, default_}
use tillerinobot.Users.{Saved, Languages, UserData, set_changed, is_changed, using_language}

module _ (langs : Languages) where
  open langs use {Lang, Json}

  -- `writeValueAsString` and `readValue`; `none` is a JsonProcessingException of the latter.
  pub record Jackson : Type 0 where
    pub write_value_as_string : Saved Json → List ℕ
    pub read_value : List ℕ → Option (Saved Json)

  -- The text in the row of each user that has one; null is an empty text.
  abbrev pub Table : Type 0
  Table = ℕ → Option (List ℕ)

  abbrev pub set_row : ℕ → List ℕ → Table → Table
  set_row userid text table u = if u == userid then some text else table u

  -- `new UserData()`.
  abbrev pub initial : Saved Json
  initial = record {
    allowed_to_debug = false;
    language_identifier = default_;
    last_song_info = none;
    default_recommendation_options = none;
    serialized_language = none;
    show_welcome_message = true;
    osu_track_welcome_enabled = false;
    show_map_meta_data_on_recommendation = true;
    v2 = false;
  }

  module _ (jackson : Jackson) where
    -- The fields of a row; `none` for data that cannot be read.
    abbrev pub read_row : Option (List ℕ) → Option (Saved Json)
    read_row none = some initial
    read_row (some []) = some initial
    read_row (some (c ∷ text)) = jackson.read_value (c ∷ text)

    abbrev pub loaded : ℕ → Saved Json → UserData langs
    loaded userid saved = record {
      changed = false;
      saved = saved;
      language = none;
      userid = userid;
    }

    pub load_user_data : ℕ → Table → Option (UserData langs)
    load_user_data userid table = elim (read_row (table userid)) [
      | none ↦ none
      | some saved ↦ some (loaded userid saved)
    ]

    -- Whether the language is modified, and its tree.
    abbrev pub store_language :
        Bool × UserData langs → (LanguageIdentifier → Lang) → Option (UserData langs)
    store_language (false, d) new_instance = some d
    store_language (true, d) new_instance =
        elim (using_language langs new_instance (λ l. (langs.value_to_tree l, l)) d) [
          | none ↦ none
          | some (tree, e) ↦
              some (record e { saved = record e.saved { serialized_language = some tree } })
        ]

    abbrev pub written : Table → UserData langs → UserData langs × Table
    written table d =
        (set_changed langs false d, set_row d.userid (jackson.write_value_as_string d.saved) table)

    -- `none` is a RuntimeException; nothing is changed then.
    pub save_user_data :
        (LanguageIdentifier → Lang) → UserData langs → Table → Option (UserData langs × Table)
    save_user_data new_instance d table =
        if is_changed langs d
        then elim (using_language langs new_instance (λ l. (langs.is_modified l, l)) d) [
          | none ↦ none
          | some r ↦ elim (store_language r new_instance) [
            | none ↦ none
            | some e ↦ some (written table e)
          ]
        ]
        else some (d, table)
