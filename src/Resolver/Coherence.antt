-- ===== src/Resolver/Coherence.antt =====
-- The cache of names and the table behind it.
use tillerinobot.Prelude.{
  ℕ, ◌≡◌, ◌≢◌, ◌↔◌, refl, Bool, true, false, Option, none, some, List, [], ◌∷◌, arith, Bool-cases,
  inl, inr, ap, ◌∙◌, sym,
}
use tillerinobot.Prelude.Int.{ℤ, pos, negsuc}
use tillerinobot.Bot.{get_irc_user_name}
use tillerinobot.Frontend.Welcome.{same_text}
use tillerinobot.Resolver.{
  Mapping, Resolver, Answer, downloaded, unknown, timed_out, failed, Resolved, resolved_to, throws,
  is_positive, is_stale, known, id_of, store, ask, id_by_mapping, get_id_by_user_name, put_cache,
  resolve_cached, resolve_irc_name, set_mapping, redownload_user, resolve_manually,
}

pub same_text_iff : (s t : List ℕ) → (same_text s t ≡ true) ↔ (s ≡ t)
unfolding same_text
same_text_iff [] [] = ground arith
same_text_iff [] (d ∷ t) = ground arith
same_text_iff (c ∷ s) [] = ground arith
same_text_iff (c ∷ s) (d ∷ t) = ground (arith, same_text_iff s t)

-- What the cache holds, the table holds too.
abbrev pub stored_id : Option Mapping → Option ℤ
stored_id none = none
stored_id (some m) = some m.user_id

abbrev pub Coherent : Resolver → Type 0
Coherent r = (nick : List ℕ) (id : ℤ) → r.cache nick ≡ some id → stored_id (r.table nick) ≡ some id

known-eq : (i j : ℤ) → known i ≡ some j → i ≡ j
known-eq (pos n) j h = ground arith
known-eq (negsuc n) j h = ground arith

none-ne-some : {A : Type 0} {a : A} → none ≢ some a
none-ne-some h = cc

differ : {b : Bool} → b ≡ false → b ≢ true
differ h k = cc

resolved_to-injective : {a b : Option ℤ} → resolved_to a ≡ resolved_to b → a ≡ b
resolved_to-injective h = cc

set_mapping-Coherent :
    (nick : List ℕ) (id : ℤ) (now : ℕ) (r : Resolver)
    → Coherent r
    → Coherent (set_mapping nick id now r)
unfolding set_mapping
set_mapping-Coherent nick id now r h n i e = ground (arith, h n i, e)

-- Looking a name up touches no other name and not the cache, and what it returns is in the table.
record Looked (nick : List ℕ) (r : Resolver) (x : Resolved × Resolver) : Type 0 where
  cache : x.1.cache ≡ r.cache
  others : (n : List ℕ) → n ≢ nick → x.1.table n ≡ r.table n
  returned : (id : ℤ) → x.0 ≡ resolved_to (some id) → stored_id (x.1.table nick) ≡ some id

store-Looked :
    (nick : List ℕ) (m : Mapping) (id : ℤ) (now : ℕ) (r : Resolver)
    → Looked nick r (store nick m id now r)
unfolding store
store-Looked nick m id now r = record {
  cache = refl;
  others = λ n h. ground (arith, same_text_iff nick n);
  returned = λ i e. ground (arith, same_text_iff nick nick, known-eq id i);
}

ask-Looked :
    (nick : List ℕ) (m : Mapping) (now : ℕ) (answer : Answer) (r : Resolver)
    → (is_positive m.user_id ≡ true → stored_id (r.table nick) ≡ some m.user_id)
    → Looked nick r (ask nick m now answer r)
unfolding ask
ask-Looked nick m now (downloaded u) r h = store-Looked nick m (id_of u) now r
ask-Looked nick m now unknown r h = store-Looked nick m (negsuc 0) now r
ask-Looked nick m now timed_out r h = elim (Bool-cases (is_positive m.user_id)) [
  | inl p ↦ record {
    cache = rw p;
    others = λ n k. rw p;
    returned = λ i e. ground (arith, p, h p, e);
  }
  | inr p ↦ record { cache = rw p; others = λ n k. rw p; returned = λ i e. ground (arith, p, e) }
]
ask-Looked nick m now failed r h = record {
  cache = refl;
  others = λ n k. refl;
  returned = λ i e. cc;
}

id_by_mapping-Looked :
    (found : Option Mapping) (nick : List ℕ) (now : ℕ) (answer : Answer) (r : Resolver)
    → r.table nick ≡ found
    → Looked nick r (id_by_mapping found nick now answer r)
unfolding id_by_mapping
id_by_mapping-Looked none nick now answer r h =
    ask-Looked nick (record { user_id = pos 0; resolved = 0; first_resolve_attempt = now }) now
      answer r (λ e. cc)
id_by_mapping-Looked (some m) nick now answer r h = elim (Bool-cases (is_stale m now)) [
  | inl old ↦ rw old (ask-Looked nick m now answer r (λ e. ap stored_id h))
  | inr fresh ↦ rw fresh (record {
    cache = refl;
    others = λ n k. refl;
    returned = λ i e. ap stored_id h ∙ ap some (known-eq m.user_id i (resolved_to-injective e));
  })
]

Looked-Coherent :
    (nick : List ℕ) (r : Resolver) (x : Resolved × Resolver)
    → Coherent r
    → r.cache nick ≡ none
    → Looked nick r x
    → Coherent x.1
Looked-Coherent nick r x h c l n i e = elim (Bool-cases (same_text nick n)) [
  | inl t ↦
      (let same : r.cache n ≡ none = ap r.cache (sym ((same_text_iff nick n).0 t)) ∙ c in
        absurd (none-ne-some (sym same ∙ ap (λ f. f n) (sym l.cache) ∙ e)))
  | inr t ↦
      ap stored_id (l.others n (λ q. differ t ((same_text_iff nick n).1 (sym q))))
      ∙ h n i (ap (λ f. f n) (sym l.cache) ∙ e)
]

put_cache-Coherent :
    (nick : List ℕ) (r : Resolver) (x : Resolved × Resolver)
    → Coherent r
    → r.cache nick ≡ none
    → Looked nick r x
    → Coherent (put_cache nick x).1
unfolding put_cache
put_cache-Coherent nick r (resolved_to none, s) h c l n i e =
    Looked-Coherent nick r (resolved_to none, s) h c l n i e
put_cache-Coherent nick r (resolved_to (some id), s) h c l n i e = ground (
  arith,
  same_text_iff nick n,
  e,
  l.returned id refl,
  Looked-Coherent nick r (resolved_to (some id), s) h c l n i,
)
put_cache-Coherent nick r (throws, s) h c l n i e = Looked-Coherent nick r (throws, s) h c l n i e

resolve_cached-Coherent :
    (cached : Option ℤ) (nick : List ℕ) (now : ℕ) (answer : Answer) (r : Resolver)
    → r.cache nick ≡ cached
    → Coherent r
    → Coherent (resolve_cached cached nick now answer r).1
unfolding resolve_cached get_id_by_user_name
resolve_cached-Coherent (some id) nick now answer r e h = h
resolve_cached-Coherent none nick now answer r e h =
    put_cache-Coherent nick r _ h e (id_by_mapping-Looked (r.table nick) nick now answer r refl)

redownload_user-Coherent :
    (nick : List ℕ) (now : ℕ) (answer : Answer) (r : Resolver)
    → Coherent r
    → Coherent (redownload_user nick now answer r).1
unfolding redownload_user
redownload_user-Coherent nick now (downloaded u) r h = set_mapping-Coherent nick (id_of u) now r h
redownload_user-Coherent nick now unknown r h = set_mapping-Coherent nick (negsuc 0) now r h
redownload_user-Coherent nick now timed_out r h = h
redownload_user-Coherent nick now failed r h = h

resolve_manually-Coherent :
    (id : ℤ) (now : ℕ) (answer : Answer) (r : Resolver)
    → Coherent r
    → Coherent (resolve_manually id now answer r).1
unfolding resolve_manually
resolve_manually-Coherent id now (downloaded u) r h =
    set_mapping-Coherent (get_irc_user_name u) id now r h
resolve_manually-Coherent id now unknown r h = h
resolve_manually-Coherent id now timed_out r h = h
resolve_manually-Coherent id now failed r h = h

-- Calls that do not overlap.
pub data Step (r : Resolver) : Resolver → Type 0 where
  resolves :
      (nick : List ℕ) (now : ℕ) (answer : Answer) → Step r (resolve_irc_name nick now answer r).1
  maps : (nick : List ℕ) (id : ℤ) (now : ℕ) → Step r (set_mapping nick id now r)
  redownloads :
      (nick : List ℕ) (now : ℕ) (answer : Answer) → Step r (redownload_user nick now answer r).1
  resolves_manually :
      (id : ℤ) (now : ℕ) (answer : Answer) → Step r (resolve_manually id now answer r).1

pub data Reach (r : Resolver) : Resolver → Type 0 where
  here : Reach r r
  next : {s t : Resolver} → Reach r s → Step s t → Reach r t

Step-Coherent : {r s : Resolver} → Step r s → Coherent r → Coherent s
unfolding resolve_irc_name
Step-Coherent {r} (resolves nick now answer) h =
    resolve_cached-Coherent (r.cache nick) nick now answer r refl h
Step-Coherent {r} (maps nick id now) h = set_mapping-Coherent nick id now r h
Step-Coherent {r} (redownloads nick now answer) h = redownload_user-Coherent nick now answer r h
Step-Coherent {r} (resolves_manually id now answer) h = resolve_manually-Coherent id now answer r h

-- Starting with an empty cache, and as long as the calls do not overlap, the cache holds for every
-- name the id that the table holds, after any number of calls, whatever the API answers.
pub Reach-Coherent :
    {r s : Resolver} → ((nick : List ℕ) → r.cache nick ≡ none) → Reach r s → Coherent s
Reach-Coherent e here n i h = absurd (none-ne-some (sym (e n) ∙ h))
Reach-Coherent e (next reach step) n i h = Step-Coherent step (Reach-Coherent e reach) n i h
