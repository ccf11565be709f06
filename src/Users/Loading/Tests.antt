-- ===== src/Users/Loading/Tests.antt =====
-- Languages that count, and a text of nine numbers and more for the data of a user.
use tillerinobot.Prelude.{
  ℕ, zero, suc, ◌≡◌, refl, ap, sym, some_injective, Bool, true, false, Option, none, some, List, [],
  ◌∷◌, get_elem?,
}
use tillerinobot.Users.Language.{
  LanguageIdentifier, tsundere, default_, values, ordinal, values-ordinal,
}
use tillerinobot.Users.{
  BeatmapWithMods, Saved, Languages, UserData, set_v2, set_language, using_language,
}
use tillerinobot.Users.Loading.{Jackson, Table, initial, loaded, load_user_data, save_user_data}
use tillerinobot.Users.Loading.Rows.{RoundTrips, Reloads}
use tillerinobot.Users.Loading.Reloaded.{Changes, nothing, more, Constructs, save_user_data-Reloads}
use tillerinobot.Users.Keeping.{Lawful, Registers, language, uses, v2}

pub record Counter : Type 0 where
  pub id : LanguageIdentifier
  pub count : ℕ
  pub modified : Bool

abbrev counting : Languages
counting = record {
  Lang = Counter;
  Json = ℕ;
  is_modified = λ l. l.modified;
  clear_modified = λ l. record l { modified = false };
  value_to_tree = λ l. l.count;
  tree_to_value = λ id n. some (record { id = id; count = n; modified = false });
}

abbrev OfClass : LanguageIdentifier → Counter → Type 0
OfClass id l = l.id ≡ id

counting-Lawful : Lawful counting OfClass
counting-Lawful = record {
  read = λ id json l e.
      (ap (λ x. x.id) (sym (some_injective e)), ap (λ x. x.modified) (sym (some_injective e)));
  written = λ id l c. ap (λ i. some (record { id = i; count = l.count; modified = false })) (sym c);
  cleared = λ id l c. (c, refl);
  unmodified = λ l e. ap (λ m. record l { modified = m }) (sym e);
}

abbrev bit : Bool → ℕ
bit true = 1
bit false = 0

abbrev is_one : ℕ → Bool
is_one zero = false
is_one (suc n) = true

abbrev song : ℕ → ℕ → ℕ → Option BeatmapWithMods
song zero beatmap mods = none
song (suc n) beatmap mods = some (record { beatmap = beatmap; mods = mods })

abbrev some_if : {A : Type 0} → ℕ → A → Option A
some_if zero a = none
some_if (suc n) a = some a

abbrev write_song : Option BeatmapWithMods → List ℕ → List ℕ
write_song none rest = 0 ∷ 0 ∷ 0 ∷ rest
write_song (some b) rest = 1 ∷ b.beatmap ∷ b.mods ∷ rest

abbrev write_tree : Option ℕ → List ℕ → List ℕ
write_tree none rest = 0 ∷ 0 ∷ rest
write_tree (some n) rest = 1 ∷ n ∷ rest

abbrev write_text : Option (List ℕ) → List ℕ
write_text none = 0 ∷ []
write_text (some text) = 1 ∷ text

abbrev write : Saved ℕ → List ℕ
write s =
    bit s.allowed_to_debug
    ∷ ordinal s.language_identifier
    ∷ bit s.show_welcome_message
    ∷ bit s.osu_track_welcome_enabled
    ∷ bit s.show_map_meta_data_on_recommendation
    ∷ bit s.v2
    ∷ write_song s.last_song_info
        (write_tree s.serialized_language (write_text s.default_recommendation_options))

abbrev with_identifier : Option LanguageIdentifier → Saved ℕ → Option (Saved ℕ)
with_identifier none s = none
with_identifier (some l) s = some (record s { language_identifier = l })

abbrev read : List ℕ → Option (Saved ℕ)
read (a ∷ l ∷ w ∷ t ∷ m ∷ v ∷ p ∷ b ∷ c ∷ q ∷ n ∷ o ∷ text) =
    with_identifier (get_elem? values l) (record {
      allowed_to_debug = is_one a;
      language_identifier = default_;
      last_song_info = song p b c;
      default_recommendation_options = some_if o text;
      serialized_language = some_if q n;
      show_welcome_message = is_one w;
      osu_track_welcome_enabled = is_one t;
      show_map_meta_data_on_recommendation = is_one m;
      v2 = is_one v;
    })
read _ = none

abbrev jackson : Jackson counting
jackson = record { write_value_as_string = write; read_value = read }

bit_lem : (b : Bool) → is_one (bit b) ≡ b
bit_lem true = refl
bit_lem false = refl

read-write : (s : Saved ℕ) → read (write s) ≡ some s
read-write s = go s.last_song_info s.serialized_language s.default_recommendation_options
  where
    go :
        (x : Option BeatmapWithMods) (y : Option ℕ) (z : Option (List ℕ))
        → let t : Saved ℕ = record s {
          last_song_info = x;
          serialized_language = y;
          default_recommendation_options = z;
        } in
          read (write t) ≡ some t
    go none none none = simp (bit_lem, values-ordinal)
    go (some x) none none = simp (bit_lem, values-ordinal)
    go none (some y) none = simp (bit_lem, values-ordinal)
    go (some x) (some y) none = simp (bit_lem, values-ordinal)
    go none none (some z) = simp (bit_lem, values-ordinal)
    go (some x) none (some z) = simp (bit_lem, values-ordinal)
    go none (some y) (some z) = simp (bit_lem, values-ordinal)
    go (some x) (some y) (some z) = simp (bit_lem, values-ordinal)

jackson-RoundTrips : RoundTrips counting jackson
jackson-RoundTrips = record { read-write = read-write }

abbrev new_instance : LanguageIdentifier → Counter
new_instance id = record { id = id; count = 0; modified = false }

new_instance-Constructs : Constructs counting jackson counting-Lawful new_instance
new_instance-Constructs id = (refl, refl)

-- Another count.
abbrev hug : Counter → ℕ × Counter
hug l = (l.count, record l { count = suc l.count; modified = true })

hug-Registers : Registers counting OfClass hug
hug-Registers = record { keeps = λ id l c. c; registers = λ l e. cc }

abbrev empty : Table counting
empty u = none

abbrev before : UserData counting
before = loaded counting jackson 7 (initial counting)

abbrev after : UserData counting
after = record before {
  changed = true;
  saved = record (initial counting) { language_identifier = tsundere; v2 = true };
  language = some (record { id = tsundere; count = 1; modified = true });
}

session : Changes counting jackson counting-Lawful before after
unfolding set_v2 set_language using_language
session =
    more (more (more nothing (v2 true)) (language tsundere))
      (uses new_instance hug (λ id. refl) hug-Registers refl)

load_empty : load_user_data counting jackson 7 empty ≡ some before
unfolding load_user_data
load_empty = refl

save_user_data-Reloads_example :
    (r : UserData counting × Table counting) × (save_user_data counting jackson new_instance after
        empty
      ≡ some r)
    × Reloads counting jackson counting-Lawful new_instance after
        (record { id = tsundere; count = 1; modified = true })
        empty
        r
save_user_data-Reloads_example =
    save_user_data-Reloads counting jackson counting-Lawful new_instance new_instance 7 before after
      empty (record { id = tsundere; count = 1; modified = true }) jackson-RoundTrips
      new_instance-Constructs load_empty session refl
