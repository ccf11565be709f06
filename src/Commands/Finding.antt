-- ===== src/Commands/Finding.antt =====
-- The static method `find` of
-- tillerinobot/src/main/java/tillerino/tillerinobot/handlers/OptionsHandler.java, which finds the
-- constant of an enum that a user means. The distance of a candidate's token to the text, both in
-- lower case, is an argument; it is that of a library.
use mathlib.Core.List.{append_assoc, append-nil}
use tillerinobot.Prelude.{
  ℕ, ◌≡◌, refl, List, [], ◌∷◌, ◌++◌, if◌then◌else◌, ltb, ◌==◌, arith, sym, ap, ◌↔◌, ◌≤◌, length,
}

-- The constant, or an IllegalArgumentException: nothing matches, or these all match.
pub data Found (E : Type 0) : Type 0 where
  found : E → Found E
  nothing_matches : Found E
  all_match : List E → Found E

module _ {E : Type 0} (distance : E → ℕ) where
  -- One round of the loop: the best distance and the candidates found so far, behind a candidate.
  abbrev pub better_distance : ℕ → ℕ → ℕ
  better_distance d best = if ltb 1 d then best else if ltb d best then d else best

  abbrev pub better_found : E → ℕ → List E → List E
  better_found c best candidates =
      if ltb 1 (distance c)
      then candidates
      else if ltb (distance c) best
      then c ∷ []
      else if distance c == best
      then candidates ++ (c ∷ [])
      else candidates

  unfoldable pub best_of : List E → ℕ → List E → List E
  best_of [] best candidates = candidates
  best_of (c ∷ haystack) best candidates =
      best_of haystack (better_distance (distance c) best) (better_found c best candidates)

  abbrev pub only : List E → Found E
  only [] = nothing_matches
  only (e ∷ []) = found e
  only (e ∷ f ∷ es) = all_match (e ∷ f ∷ es)

  -- `Integer.MAX_VALUE` at first.
  unfoldable pub find : List E → Found E
  unfolding best_of
  find haystack = only (best_of haystack 2147483647 [])

  -- The candidates at a distance.
  abbrev pub at_distance : ℕ → List E → List E
  at_distance n [] = []
  at_distance n (c ∷ cs) = if distance c == n then c ∷ at_distance n cs else at_distance n cs

  abbrev pub or_else : List E → List E → List E
  or_else [] other = other
  or_else (e ∷ es) other = e ∷ es

  best_of-zero :
      (haystack candidates : List E)
      → best_of haystack 0 candidates ≡ candidates ++ at_distance 0 haystack
  unfolding best_of
  best_of-zero [] candidates = sym (append-nil candidates)
  best_of-zero (c ∷ haystack) candidates = ground (
    arith,
    best_of-zero haystack candidates,
    best_of-zero haystack (candidates ++ (c ∷ [])),
    append_assoc candidates (c ∷ []) (at_distance 0 haystack),
  )

  best_of-one :
      (haystack candidates : List E)
      → best_of haystack 1 candidates
        ≡ or_else (at_distance 0 haystack) (candidates ++ at_distance 1 haystack)
  unfolding best_of
  best_of-one [] candidates = sym (append-nil candidates)
  best_of-one (c ∷ haystack) candidates = ground (
    arith,
    best_of-zero haystack (c ∷ []),
    best_of-one haystack candidates,
    best_of-one haystack (candidates ++ (c ∷ [])),
    append_assoc candidates (c ∷ []) (at_distance 1 haystack),
  )

  best_of_lem :
      (haystack : List E)
      → best_of haystack 2147483647 [] ≡ or_else (at_distance 0 haystack) (at_distance 1 haystack)
  unfolding best_of
  best_of_lem [] = refl
  best_of_lem (c ∷ haystack) =
      ground
        (arith, best_of-zero haystack (c ∷ []), best_of-one haystack (c ∷ []), best_of_lem haystack)

  -- Those that are taken into account: the constants whose token is the text, or if there are none
  -- those at a distance of one.
  abbrev pub closest : List E → List E
  closest haystack = or_else (at_distance 0 haystack) (at_distance 1 haystack)

  only-found : (xs : List E) (c : E) → (only xs ≡ found c) ↔ (xs ≡ c ∷ [])
  only-found [] c = (λ e. cc, λ e. ground (arith, e))
  only-found (x ∷ []) c = (λ e. ap (λ y. y ∷ []) (found_injective e), λ e. ap found (head_eq e))
    where
      found_injective : {x y : E} → found x ≡ found y → x ≡ y
      found_injective e = cc

      head_eq : {x y : E} → x ∷ [] ≡ y ∷ [] → x ≡ y
      head_eq e = cc
  only-found (x ∷ y ∷ xs) c = (λ e. cc, λ e. absurd (ground (arith, e)))

  only-nothing : (xs : List E) → (only xs ≡ nothing_matches) ↔ (xs ≡ [])
  only-nothing [] = (λ e. refl, λ e. refl)
  only-nothing (x ∷ []) = (λ e. cc, λ e. absurd (ground (arith, e)))
  only-nothing (x ∷ y ∷ xs) = (λ e. cc, λ e. absurd (ground (arith, e)))

  only-all_match : (xs cs : List E) → (only xs ≡ all_match cs) ↔ ((xs ≡ cs) × (2 ≤ length xs))
  only-all_match [] cs = (λ e. cc, λ h. absurd (omega (arith, h.1)))
  only-all_match (x ∷ []) cs = (λ e. cc, λ h. absurd (omega (arith, h.1)))
  only-all_match (x ∷ y ∷ xs) cs =
      (λ e. (all_match_injective e, omega arith), λ h. ap all_match h.0)
    where
      all_match_injective : {us vs : List E} → all_match us ≡ all_match vs → us ≡ vs
      all_match_injective e = cc

  -- `find` returns a constant exactly if it is the only one whose token is the text, or if there is
  -- none such the only one at a distance of one. It throws that nothing matches exactly if there are
  -- none of either kind, and that several match exactly if those of the better kind are two or more,
  -- which it names in their order.
  pub find_lem :
      (haystack : List E)
      → ((c : E) → (find haystack ≡ found c) ↔ (closest haystack ≡ c ∷ []))
        × ((find haystack ≡ nothing_matches) ↔ (closest haystack ≡ []))
        × ((cs : List E)
            → (find haystack ≡ all_match cs)
              ↔ ((closest haystack ≡ cs) × (2 ≤ length (closest haystack))))
  unfolding find
  find_lem haystack = rw (best_of_lem haystack) (
    only-found (closest haystack),
    only-nothing (closest haystack),
    only-all_match (closest haystack),
  )
