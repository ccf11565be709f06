-- ===== src/Chat/Response/Laws.antt =====
-- Joined responses and their flattened lists.
use tillerinobot.Prelude.{
  ◌≡◌, refl, ◌&&◌, some, List, [], ◌∷◌, ◌++◌, All, All-append, ap, sym, subst, arith,
}
use mathlib.Core.List.{append-nil, append_assoc}
use tillerinobot.Chat.Response.{
  Response, message, success, action, no_response, response_list, to_list, of_list, is_none,
  flatten, and_then, then_nonnull, parts,
}

to_list-of_list : (rs : List Response) → to_list (of_list rs) ≡ rs
to_list-of_list [] = refl
to_list-of_list (r ∷ rs) = ap (◌∷◌ r) (to_list-of_list rs)

flatten_nonnull : (a b : Response) → flatten (then_nonnull a b) ≡ flatten a ++ flatten b
unfolding flatten then_nonnull
flatten_nonnull a no_response = sym (append-nil (flatten a))
flatten_nonnull no_response b = refl
flatten_nonnull a b = to_list-of_list (parts a ++ parts b)

-- What a joined response writes out is what its two parts write out, in order, for responses of
-- any kind, nested lists included.
pub flatten-and_then : (a b : Response) → flatten (and_then a (some b)) ≡ flatten a ++ flatten b
unfolding and_then
flatten-and_then a b = flatten_nonnull a b

-- One response of the kinds that can be written out.
abbrev pub IsSingle : Response → Type 0
IsSingle (message s) = Unit {0}
IsSingle (success s) = Unit {0}
IsSingle (action s) = Unit {0}
IsSingle no_response = ⊥
IsSingle (response_list rs) = ⊥

-- Joining responses that write out single messages gives one that does.
pub and_then-singles :
    (a b : Response)
    → All IsSingle (flatten a)
    → All IsSingle (flatten b)
    → All IsSingle (flatten (and_then a (some b)))
and_then-singles a b h k =
    subst (All IsSingle) (sym (flatten-and_then a b)) (All-append IsSingle _ _ h k)

regroup :
    (xs ys zs : List Response)
    → response_list (of_list (to_list (of_list (xs ++ ys)) ++ zs))
      ≡ response_list (of_list (xs ++ to_list (of_list (ys ++ zs))))
regroup xs ys zs = simp (to_list-of_list, append_assoc)

nonnull_assoc :
    (a b c : Response) → then_nonnull (then_nonnull a b) c ≡ then_nonnull a (then_nonnull b c)
unfolding then_nonnull
nonnull_assoc a b no_response = refl
nonnull_assoc a no_response c = refl
nonnull_assoc no_response b c = refl
nonnull_assoc a b c = regroup (parts a) (parts b) (parts c)

-- Joining three responses gives the same response, of whatever kinds they are and however they are
-- grouped.
pub and_then_assoc :
    (a b c : Response)
    → and_then (and_then a (some b)) (some c) ≡ and_then a (some (and_then b (some c)))
unfolding and_then
and_then_assoc a b c = nonnull_assoc a b c

pub is_none-and_then : (a b : Response) → is_none (and_then a (some b)) ≡ (is_none a && is_none b)
unfolding and_then is_none
is_none-and_then a b = ground arith
