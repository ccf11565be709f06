-- ===== src/Commands/Choices.antt =====
-- How handlers combine.
use tillerinobot.Prelude.{◌≡◌, ◌≢◌, refl, some, ◌∷◌, ◌++◌, ap, ◌∙◌, sym, subst}
use Prim.Native.String.{String}
use mathlib.Core.List.{append_assoc}
use tillerinobot.Commands.{
  Text, Handled, not_handled, response, throws, strip_prefix, CommandHandler, or_next, or,
  in_parentheses, or_refuse, if_stripped, handling,
}

module _ {ℓ} {S : Type ℓ} where
  or_next_assoc :
      (f g : S → Handled × S) (r : Handled × S)
      → or_next S g (or_next S f r) ≡ or_next S (λ s. or_next S g (f s)) r
  unfolding or_next
  or_next_assoc f g (not_handled, s) = refl
  or_next_assoc f g (response r, s) = refl
  or_next_assoc f g (throws e, s) = refl

  -- It does not matter how the alternatives of a handler are grouped: neither for the result and the
  -- state, exceptions included, nor for the choices shown.
  pub or_assoc :
      (a b c : CommandHandler S)
      → ((command : Text) (s : S)
          → (or S (or S a b) c).handle command s ≡ (or S a (or S b c)).handle command s)
        × ((or S (or S a b) c).choices ≡ (or S a (or S b c)).choices)
  unfolding or
  or_assoc a b c = (
    λ command s. or_next_assoc (b.handle command) (c.handle command) (a.handle command s),
    append_assoc a.choices (b'|' ∷ b.choices) (b'|' ∷ c.choices),
  )

  or_refuse-handled : (m : String) (r : Handled × S) → (or_refuse S m r).0 ≢ not_handled
  unfolding or_refuse
  or_refuse-handled m (not_handled, s) = λ e. cc e
  or_refuse-handled m (response r, s) = λ e. cc e
  or_refuse-handled m (throws x, s) = λ e. cc e

  or_next-handled : (f : S → Handled × S) (r : Handled × S) → r.0 ≢ not_handled → or_next S f r ≡ r
  unfolding or_next
  or_next-handled f (not_handled, s) h = absurd (h refl)
  or_next-handled f (response r, s) h = refl
  or_next-handled f (throws x, s) h = refl

  or_refuse-keeps : (m : String) (r : Handled × S) → r.0 ≢ not_handled → or_refuse S m r ≡ r
  unfolding or_refuse
  or_refuse-keeps m (not_handled, s) h = absurd (h refl)
  or_refuse-keeps m (response r, s) h = refl
  or_refuse-keeps m (throws x, s) h = refl

  -- A command that begins with the start of a handler made by `handling` is handled there and never
  -- reaches the alternatives behind it; what the underlying handler makes of the rest is kept.
  pub or-handling :
      (invalid_choice : Text → Text → String) (start : Text) (underlying next : CommandHandler S)
      (command rest : Text) (s : S)
      → strip_prefix start command ≡ some rest
      → ((or S (handling S invalid_choice start underlying) next).handle command s
          ≡ (handling S invalid_choice start underlying).handle command s)
        × (((handling S invalid_choice start underlying).handle command s).0 ≢ not_handled)
        × ((underlying.handle rest s).0 ≢ not_handled
            → (handling S invalid_choice start underlying).handle command s
              ≡ underlying.handle rest s)
  unfolding or handling
  or-handling invalid_choice start underlying next command rest s h =
      let message = invalid_choice command (start ++ in_parentheses S underlying.choices) in
      let handled =
        (ap (λ o. if_stripped S o (λ r t. or_refuse S message (underlying.handle r t)) s) h) in
      let certain =
        subst (λ r. r.0 ≢ not_handled) (sym handled)
          (or_refuse-handled message (underlying.handle rest s)) in
      (
        or_next-handled (next.handle command) _ certain,
        certain,
        λ k. handled ∙ or_refuse-keeps message (underlying.handle rest s) k,
      )
