-- ===== src/Resolver/Reuse.antt =====
-- What later calls of `resolveIRCName` see of an earlier call or of `setMapping`.
use tillerinobot.Prelude.{ℕ, ◌+◌, ◌*◌, ◌≤◌, ◌≡◌, refl, true, Option, none, some, List, ltb, arith}
use tillerinobot.Prelude.Int.{ℤ, pos}
use tillerinobot.Frontend.Welcome.{same_text}
use tillerinobot.Resolver.{
  Resolver, Answer, Resolved, resolved_to, throws, base_age, max_age, is_stale, get_id_by_user_name,
  id_by_mapping, put_cache, resolve_cached, resolve_irc_name, set_mapping,
}
use tillerinobot.Resolver.Coherence.{same_text_iff, stored_id}

same_text_refl : (s : List ℕ) → same_text s s ≡ true
same_text_refl s = (same_text_iff s s).1 refl

resolve_irc_name-cached :
    (nick : List ℕ) (id : ℤ) (now : ℕ) (answer : Answer) (r : Resolver)
    → r.cache nick ≡ some id
    → resolve_irc_name nick now answer r ≡ (resolved_to (some id), r)
unfolding resolve_irc_name resolve_cached
resolve_irc_name-cached nick id now answer r h = rw h

-- A looked-up id that was put into the cache is what the cache then holds.
put_cache-cached :
    (nick : List ℕ) (x : Resolved × Resolver) (id : ℤ)
    → (put_cache nick x).0 ≡ resolved_to (some id)
    → (put_cache nick x).1.cache nick ≡ some id
unfolding put_cache
put_cache-cached nick (resolved_to none, r) id h = ground arith
put_cache-cached nick (resolved_to (some i), r) id h = ground (arith, same_text_refl nick)
put_cache-cached nick (throws, r) id h = ground arith

resolve_cached-cached :
    (cached : Option ℤ) (nick : List ℕ) (now : ℕ) (answer : Answer) (r : Resolver) (id : ℤ)
    → r.cache nick ≡ cached
    → (resolve_cached cached nick now answer r).0 ≡ resolved_to (some id)
    → (resolve_cached cached nick now answer r).1.cache nick ≡ some id
unfolding resolve_cached
resolve_cached-cached (some i) nick now answer r id e h = ground (arith, e)
resolve_cached-cached none nick now answer r id e h =
    put_cache-cached nick (get_id_by_user_name nick now answer r) id h

-- Once a name has resolved to an id, resolving it again, at any later time and whatever the API would
-- answer, returns that id and changes nothing.
pub resolve_irc_name-again :
    (nick : List ℕ) (now later : ℕ) (answer other : Answer) (r : Resolver) (id : ℤ)
    → (resolve_irc_name nick now answer r).0 ≡ resolved_to (some id)
    → resolve_irc_name nick later other (resolve_irc_name nick now answer r).1
      ≡ (resolved_to (some id), (resolve_irc_name nick now answer r).1)
unfolding resolve_irc_name
resolve_irc_name-again nick now later answer other r id h =
    resolve_irc_name-cached nick id later other _
      (resolve_cached-cached (r.cache nick) nick now answer r id refl h)

max_age_bounds : (now : ℕ) → (base_age ≤ max_age now) × (max_age now ≤ 2 * base_age)
unfolding max_age
max_age_bounds now = ground arith

-- A positive id given to `setMapping` is what the name resolves to in the 90 days after, without the
-- API, whatever the cache and the table held before.
pub resolve_irc_name-set_mapping :
    (nick : List ℕ) (id now later : ℕ) (answer : Answer) (r : Resolver)
    → ltb 0 id ≡ true
    → later ≤ now + base_age
    → (resolve_irc_name nick later answer (set_mapping nick (pos id) now r)).0
      ≡ resolved_to (some (pos id))
unfolding resolve_irc_name resolve_cached get_id_by_user_name id_by_mapping set_mapping is_stale
    put_cache
resolve_irc_name-set_mapping nick id now later answer r p h =
    ground (arith, same_text_refl nick, max_age_bounds later)

-- A lookup of a name that has found an id, but not yet put it into the cache, while another thread
-- calls `setMapping` for the name: the table then holds the new id, and every later call of
-- `resolveIRCName` for the name returns the old one.
pub put_cache-overwrites :
    (nick : List ℕ) (now set later : ℕ) (answer other : Answer) (r : Resolver) (old new : ℤ)
    → (get_id_by_user_name nick now answer r).0 ≡ resolved_to (some old)
    → let looked_up = get_id_by_user_name nick now answer r in
      let mapped = set_mapping nick new set looked_up.1 in
      let t = (put_cache nick (looked_up.0, mapped)).1 in
      (stored_id (t.table nick) ≡ some new)
      × (resolve_irc_name nick later other t ≡ (resolved_to (some old), t))
unfolding set_mapping put_cache
put_cache-overwrites nick now set later answer other r old new h = rw h (
  (ground (arith, same_text_refl nick)),
  resolve_irc_name-cached nick old later other _ (ground (arith, same_text_refl nick)),
)
