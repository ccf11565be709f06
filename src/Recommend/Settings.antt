-- ===== src/Recommend/Settings.antt =====
-- RecommendationRequest.java and Model.java of
-- tillerinobot/src/main/java/tillerino/tillerinobot/recommendations, with what the parser of requests
-- takes from elsewhere. Texts are lists of code points, mods bit masks. What other libraries answer
-- are the fields of `Library`: the Levenshtein distance, the letter case of Java,
-- `Double.parseDouble` and the class `Mods` of osuApiModel. A UserException stands as its reason.
use tillerinobot.Prelude.{
  ℕ, Bool, true, false, ◌&&◌, Option, none, some, List, [], ◌∷◌, if◌then◌else◌, ◌==◌,
}
use tillerinobot.Recommend.Predicate
use tillerinobot.Recommend.Predicate.{Double, NumericPropertyPredicate}

pub data Model : Type 0 where
  alpha beta gamma8 gamma9 gamma10 gamma11 gamma12 nap : Model

unfoldable pub is_mods_capable : Model → Bool
is_mods_capable alpha = false
is_mods_capable beta = false
is_mods_capable _ = true

-- `NONE` is `regular`.
pub data Shift : Type 0 where
  regular succ succer succerberg : Shift

pub record Library (Mod : Type 0) : Type 0 where
  pub distance : List ℕ → List ℕ → ℕ
  pub to_lower_case : List ℕ → List ℕ
  pub to_upper_case : List ℕ → List ℕ
  pub parse_double : List ℕ → Option Double
  pub from_short_names_continuous : List ℕ → Option ℕ
  pub from_short_name : List ℕ → Option Mod
  pub fix_nc : ℕ → ℕ
  pub requestable : ℕ
  pub get_mods : ℕ → List Mod
  pub add : ℕ → Mod → ℕ
  pub is : Mod → ℕ → Bool

pub data RecommendationPredicate (Mod : Type 0) : Type 0 where
  numeric : NumericPropertyPredicate → RecommendationPredicate Mod
  exclude_mod : Mod → RecommendationPredicate Mod

pub record Request (Mod : Type 0) : Type 0 where
  pub nomod : Bool
  pub model : Model
  pub requested_mods : ℕ
  pub predicates : List (RecommendationPredicate Mod)
  pub difficulty_shift : Shift

pub data Refusal (Mod : Type 0) : Type 0 where
  invalid_setting invalid_predicate : List ℕ → Refusal Mod
  contradicting : RecommendationPredicate Mod → RecommendationPredicate Mod → Refusal Mod
  contradicting_request : RecommendationPredicate Mod → Refusal Mod
  mixed_nomod_and_mods : Refusal Mod

pub data Parsing (Mod A : Type 0) : Type 0 where
  accepted : A → Parsing Mod A
  refused : Refusal Mod → Parsing Mod A

-- `split(" ")`, but with the empty texts at the end, which the parser skips.
unfoldable pub split : List ℕ → List (List ℕ)
split [] = [] ∷ []
split (c ∷ s) =
    let rest = split s in
    if c == b' ' then [] ∷ rest else elim rest [ [] ↦ (c ∷ []) ∷ [] | w ∷ ws ↦ (c ∷ w) ∷ ws ]

abbrev pub same : List ℕ → List ℕ → Bool
same [] [] = true
same [] (d ∷ t) = false
same (c ∷ s) [] = false
same (c ∷ s) (d ∷ t) = c == d && same s t

unfoldable pub ends_with : List ℕ → List ℕ → Bool
ends_with [] suffix = same [] suffix
ends_with (c ∷ s) suffix = if same (c ∷ s) suffix then true else ends_with s suffix

module _ {Mod : Type 0} where
  abbrev pub and_then : {A B : Type 0} → Parsing Mod A → (A → Parsing Mod B) → Parsing Mod B
  and_then (accepted a) f = f a
  and_then (refused e) f = refused e

  unfoldable pub contradicts : RecommendationPredicate Mod → RecommendationPredicate Mod → Bool
  contradicts (numeric p) (numeric q) = Predicate.contradicts p q
  contradicts (numeric p) (exclude_mod n) = false
  contradicts (exclude_mod m) q = false

  abbrev pub initial : Request Mod
  initial = record {
    nomod = false;
    model = gamma12;
    requested_mods = 0;
    predicates = [];
    difficulty_shift = regular;
  }

  abbrev pub or_refuse : List ℕ → Option (Request Mod) → Parsing Mod (Request Mod)
  or_refuse setting (some r) = accepted r
  or_refuse setting none = refused (invalid_setting setting)

  abbrev pub or_else : Option (Request Mod) → Parsing Mod (Request Mod) → Parsing Mod (Request Mod)
  or_else (some r) other = accepted r
  or_else none other = other

  abbrev pub with_engine : Option Model → Request Mod → Option (Request Mod)
  with_engine none r = none
  with_engine (some m) r = some (record r { model = m })
