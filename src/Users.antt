-- ===== src/Users.antt =====
-- tillerinobot/src/main/java/tillerino/tillerinobot/UserDataManager.java: what the bot keeps of a
-- user, and how it is loaded and saved. Texts are lists of code points. The constructors of the
-- languages, which draw random numbers, and Jackson are parameters. The database does not fail.
pub mod Language
pub mod Loading
mod Equality
pub mod Keeping
use tillerinobot.Prelude.{
  ℕ, Bool, true, false, not, ◌&&◌, ◌||◌, Option, none, some, List, [], ◌∷◌, if◌then◌else◌, ◌==◌,
}
use tillerinobot.Users.Language.{LanguageIdentifier, default_, same}

pub record BeatmapWithMods : Type 0 where
  pub beatmap : ℕ
  pub mods : ℕ

abbrev pub nomod : BeatmapWithMods → BeatmapWithMods
nomod b = record b { mods = 0 }

-- `equals` of the class, of texts, and `Objects.equals`.
abbrev pub same_beatmap : BeatmapWithMods → BeatmapWithMods → Bool
same_beatmap a b = (a.beatmap == b.beatmap) && (a.mods == b.mods)

abbrev pub same_text : List ℕ → List ℕ → Bool
same_text [] [] = true
same_text [] (d ∷ t) = false
same_text (c ∷ s) [] = false
same_text (c ∷ s) (d ∷ t) = (c == d) && same_text s t

abbrev pub same_option : {A : Type 0} → (A → A → Bool) → Option A → Option A → Bool
same_option same none none = true
same_option same none (some b) = false
same_option same (some a) none = false
same_option same (some a) (some b) = same a b

abbrev pub same_bool : Bool → Bool → Bool
same_bool true b = b
same_bool false b = not b

-- The fields that are saved, for trees of JSON of a type `Json`. `none` is null, and for the
-- language a null node as well.
pub record Saved (Json : Type 0) : Type 0 where
  pub allowed_to_debug : Bool
  pub language_identifier : LanguageIdentifier
  pub last_song_info : Option BeatmapWithMods
  pub default_recommendation_options : Option (List ℕ)
  pub serialized_language : Option Json
  pub show_welcome_message : Bool
  pub osu_track_welcome_enabled : Bool
  pub show_map_meta_data_on_recommendation : Bool
  pub v2 : Bool

-- The objects of the classes of languages, and what Jackson makes of them. `is_modified` is false
-- for a language that is not `IsMutable`, and `clear_modified` does nothing to it.
pub record Languages : Type 1 where
  pub Lang : Type 0
  pub Json : Type 0
  pub is_modified : Lang → Bool
  pub clear_modified : Lang → Lang
  pub value_to_tree : Lang → Json
  -- `none` is a JsonProcessingException
  pub tree_to_value : LanguageIdentifier → Json → Option Lang

module _ (langs : Languages) where
  open langs use {Lang, Json}

  pub record UserData : Type 0 where
    pub changed : Bool
    pub saved : Saved Json
    pub language : Option Lang
    pub userid : ℕ

  abbrev pub language_modified : Option Lang → Bool
  language_modified none = false
  language_modified (some l) = langs.is_modified l

  abbrev pub language_cleared : Option Lang → Option Lang
  language_cleared none = none
  language_cleared (some l) = some (langs.clear_modified l)

  pub set_changed : Bool → UserData → UserData
  set_changed changed d = record d {
    changed = changed;
    language = if changed then d.language else language_cleared d.language;
  }

  pub is_changed : UserData → Bool
  is_changed d = d.changed || language_modified d.language

  pub set_allowed_to_debug : Bool → UserData → UserData
  set_allowed_to_debug v d = record d {
    changed = d.changed || not (same_bool v d.saved.allowed_to_debug);
    saved = record d.saved { allowed_to_debug = v };
  }

  pub set_language : LanguageIdentifier → UserData → UserData
  set_language l d = if same d.saved.language_identifier l then d else record d {
    changed = true;
    saved = record d.saved { language_identifier = l; serialized_language = none };
    language = none;
  }

  pub set_last_song_info : Option BeatmapWithMods → UserData → UserData
  set_last_song_info v d = record d {
    changed = d.changed || not (same_option same_beatmap d.saved.last_song_info v);
    saved = record d.saved { last_song_info = v };
  }

  unfoldable pub set_default_recommendation_options : Option (List ℕ) → UserData → UserData
  set_default_recommendation_options v d = record d {
    changed = d.changed || not (same_option same_text d.saved.default_recommendation_options v);
    saved = record d.saved { default_recommendation_options = v };
  }

  unfoldable pub set_show_welcome_message : Bool → UserData → UserData
  set_show_welcome_message v d = record d {
    changed = d.changed || not (same_bool v d.saved.show_welcome_message);
    saved = record d.saved { show_welcome_message = v };
  }

  unfoldable pub set_osu_track_welcome_enabled : Bool → UserData → UserData
  set_osu_track_welcome_enabled v d = record d {
    changed = d.changed || not (same_bool v d.saved.osu_track_welcome_enabled);
    saved = record d.saved { osu_track_welcome_enabled = v };
  }

  unfoldable pub set_show_map_meta_data_on_recommendation : Bool → UserData → UserData
  set_show_map_meta_data_on_recommendation v d = record d {
    changed = d.changed || not (same_bool v d.saved.show_map_meta_data_on_recommendation);
    saved = record d.saved { show_map_meta_data_on_recommendation = v };
  }

  unfoldable pub set_v2 : Bool → UserData → UserData
  set_v2 v d = record d {
    changed = d.changed || not (same_bool v d.saved.v2);
    saved = record d.saved { v2 = v };
  }

  -- `Mods.getMask` of the mods and Lazer, of osuApiModel, is an argument.
  pub add_lazer : (ℕ → ℕ) → UserData → ℕ → ℕ
  add_lazer with_lazer d mods = if d.saved.v2 then with_lazer mods else mods

  -- The language that `usingLanguage` hands to its task, with the language that the constructor of
  -- the class makes; `none` if the data cannot be read.
  abbrev pub language_of : (LanguageIdentifier → Lang) → UserData → Option Lang
  language_of new_instance d = elim d.language [
    | some l ↦ some l
    | none ↦ elim d.saved.serialized_language [
      | some json ↦ langs.tree_to_value d.saved.language_identifier json
      | none ↦ some (new_instance d.saved.language_identifier)
    ]
  ]

  -- `usingLanguage`: the task returns a value and the language as it leaves it; `none` is the
  -- RuntimeException for data that cannot be read.
  abbrev pub applied : {A : Type 0} → UserData → A × Lang → A × UserData
  applied d (a, l) = (a, record d { language = some l })

  pub using_language :
      {A : Type 0}
      → (LanguageIdentifier → Lang)
      → (Lang → A × Lang)
      → UserData
      → Option (A × UserData)
  using_language new_instance task d = elim (language_of new_instance d) [
    | none ↦ none
    | some l ↦ some (applied d (task l))
  ]
