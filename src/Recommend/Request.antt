-- ===== src/Recommend/Request.antt =====
-- RecommendationRequestParser of
-- tillerinobot/src/main/java/tillerino/tillerinobot/recommendations, and PredicateParser and
-- ExcludeMod of tillerinobot/src/main/java/tillerino/tillerinobot/predicates. A method that returns a
-- boolean and changes the builder returns the changed request, or `none` for false. Whether the user
-- is a donator is an argument.
pub mod Verified
pub mod Order
pub mod Sample
mod Tests
use tillerinobot.Prelude.{
  ℕ, Bool, true, false, not, ◌&&◌, Option, none, some, List, [], ◌∷◌, ◌++◌, codes, if◌then◌else◌,
  leb, ◌==◌, bit_and,
}
use tillerinobot.Recommend.Predicate
use tillerinobot.Recommend.Predicate.{
  Double, Property, approach_rate, beats_per_minute, overall_difficulty, map_length, circle_size,
  star_diff, NumericPropertyPredicate, Built, not_mine, built, invalid_choice, build,
}
use tillerinobot.Recommend.Settings.{
  Library, Model, Parsing, RecommendationPredicate, Refusal, Request, Shift, accepted, alpha,
  and_then, beta, contradicting, contradicting_request, contradicts, ends_with, exclude_mod,
  gamma10, gamma11, gamma12, gamma8, gamma9, initial, invalid_predicate, invalid_setting,
  is_mods_capable, mixed_nomod_and_mods, nap, numeric, or_else, or_refuse, refused, regular, same,
  split, succ, succer, succerberg, with_engine,
}

module _ {Mod : Type 0} (library : Library Mod) where
  abbrev near : List ℕ → List ℕ → ℕ → Bool
  near s name bound = leb (library.distance s name) bound

  pub engine : List ℕ → Option Model
  unfolding ends_with
  engine s =
      if near s (codes "relax") 2
      then some alpha
      else if near s (codes "beta") 1
      then some beta
      else if near s (codes "gamma8") 2 && ends_with s (codes "8")
      then some gamma8
      else if near s (codes "gamma9") 2 && ends_with s (codes "9")
      then some gamma9
      else if near s (codes "gamma10") 2 && ends_with s (codes "10")
      then some gamma10
      else if near s (codes "gamma11") 2 && ends_with s (codes "11")
      then some gamma11
      else if near s (codes "gamma12") 2 && ends_with s (codes "12")
      then some gamma12
      else if near s (codes "gamma") 2
      then some gamma10
      else if same s (codes "nap")
      then some nap
      else none

  pub parse_engines : List ℕ → Request Mod → Option (Request Mod)
  parse_engines param r = with_engine (engine (library.to_lower_case param)) r

  abbrev add_mods : List Mod → ℕ → ℕ
  add_mods [] mods = mods
  add_mods (m ∷ ms) mods = add_mods ms (library.add mods m)

  abbrev with_mods : Option ℕ → Request Mod → Option (Request Mod)
  with_mods none r = none
  with_mods (some named) r =
      let mods = library.fix_nc named in
      if mods == bit_and mods library.requestable
      then some (record r { requested_mods = add_mods (library.get_mods mods) r.requested_mods })
      else none

  pub parse_mods : List ℕ → Request Mod → Option (Request Mod)
  unfolding is_mods_capable
  parse_mods param r =
      let s = library.to_lower_case param in
      if near s (codes "nomod") 2
      then some (record r { nomod = true })
      else if is_mods_capable r.model
      then with_mods (library.from_short_names_continuous s) r
      else none

  abbrev build_exclude_mod : List ℕ → Option (RecommendationPredicate Mod)
  build_exclude_mod [] = none
  build_exclude_mod (c ∷ s) =
      if c == b'-'
      then elim (library.from_short_name (library.to_upper_case s)) [
        | none ↦ none
        | some m ↦ some (exclude_mod m)
      ]
      else none

  abbrev properties : List Property
  properties =
      approach_rate ∷ beats_per_minute ∷ overall_difficulty ∷ map_length ∷ circle_size ∷ star_diff
      ∷ []

  -- `tryParse`, the builders one after the other; null is `accepted none`.
  try_build : List Property → List ℕ → Parsing Mod (Option (RecommendationPredicate Mod))
  try_build [] argument = accepted (build_exclude_mod argument)
  try_build (p ∷ ps) argument = elim (build library.parse_double p argument) [
    | not_mine ↦ try_build ps argument
    | built q ↦ accepted (some (numeric q))
    | invalid_choice ↦ refused (invalid_predicate argument)
  ]

  pub try_parse : List ℕ → Parsing Mod (Option (RecommendationPredicate Mod))
  unfolding try_build
  try_parse argument = try_build properties argument

  -- The loop over the predicates so far.
  pub check_against :
      List (RecommendationPredicate Mod) → RecommendationPredicate Mod → Parsing Mod (Unit {0})
  unfolding contradicts
  check_against [] p = accepted tt
  check_against (existing ∷ rest) p =
      if contradicts existing p then refused (contradicting existing p) else check_against rest p

  with_predicate :
      Request Mod → Option (RecommendationPredicate Mod) → Parsing Mod (Option (Request Mod))
  unfolding check_against
  with_predicate r none = accepted none
  with_predicate r (some p) =
      and_then (check_against r.predicates p)
        (λ _. accepted (some (record r { predicates = r.predicates ++ (p ∷ []) })))

  pub parse_predicates : Bool → List ℕ → Request Mod → Parsing Mod (Option (Request Mod))
  unfolding with_predicate try_parse
  parse_predicates true param r = and_then (try_parse param) (with_predicate r)
  parse_predicates false param r = accepted none

  pub parse_other : Bool → List ℕ → Request Mod → Option (Request Mod)
  parse_other true param r =
      let s = library.to_lower_case param in
      if same s (codes "succ")
      then some (record r { difficulty_shift = succ })
      else if same s (codes "succer")
      then some (record r { difficulty_shift = succer })
      else if near s (codes "succerberg") 2
      then some (record r { difficulty_shift = succerberg })
      else none
  parse_other false param r = none

  pub parse_setting : Bool → List ℕ → Request Mod → Parsing Mod (Request Mod)
  unfolding parse_engines parse_mods parse_predicates parse_other
  parse_setting donator setting r = or_else (parse_engines setting r) (
      or_else (parse_mods setting r) (
        and_then (parse_predicates donator setting r)
          (λ found. or_else found (or_refuse setting (parse_other donator setting r)))))

  -- The loop over the settings.
  pub parse_settings : Bool → List (List ℕ) → Request Mod → Parsing Mod (Request Mod)
  unfolding parse_setting
  parse_settings donator [] r = accepted r
  parse_settings donator ([] ∷ rest) r = parse_settings donator rest r
  parse_settings donator ((c ∷ s) ∷ rest) r =
      and_then (parse_setting donator (c ∷ s) r) (parse_settings donator rest)

  -- Whether `findNonPredicateContradiction` finds one.
  pub contradicts_request : Request Mod → RecommendationPredicate Mod → Bool
  contradicts_request r (exclude_mod m) = library.is m r.requested_mods
  contradicts_request r (numeric p) = elim p.property [
    | star_diff ↦ not (r.requested_mods == 0)
    | _ ↦ false
  ]

  verify_predicates : List (RecommendationPredicate Mod) → Request Mod → Parsing Mod (Request Mod)
  unfolding contradicts_request
  verify_predicates [] r = accepted r
  verify_predicates (p ∷ ps) r =
      if contradicts_request r p then refused (contradicting_request p) else verify_predicates ps r

  pub verify : Request Mod → Parsing Mod (Request Mod)
  unfolding verify_predicates
  verify r =
      if r.nomod && not (r.requested_mods == 0)
      then refused mixed_nomod_and_mods
      else verify_predicates r.predicates r

  pub parse_sampler_settings : Bool → List ℕ → Parsing Mod (Request Mod)
  unfolding parse_settings verify
  parse_sampler_settings donator message =
      and_then (parse_settings donator (split message) initial) verify
