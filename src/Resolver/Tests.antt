-- ===== src/Resolver/Tests.antt =====
-- Names and answers of the API for `IrcNameResolver`.
use tillerinobot.Prelude.{ℕ, ◌≡◌, refl, none, some, List, codes, arith}
use tillerinobot.Prelude.Int.{pos}
use tillerinobot.Frontend.Welcome.{same_text}
use tillerinobot.Resolver.{
  Resolver, Answer, downloaded, unknown, timed_out, failed, resolved_to, max_age, is_stale,
  get_id_by_user_name, put_cache, resolve_irc_name, set_mapping,
}
use tillerinobot.Resolver.Coherence.{stored_id, resolves, maps, here, next, Reach-Coherent}
use tillerinobot.Resolver.Reuse.{resolve_irc_name-set_mapping, put_cache-overwrites}

abbrev empty : Resolver
empty = record { table = λ _. none; cache = λ _. none }

abbrev ann : List ℕ
ann = codes "ann"

abbrev found : Answer
found = downloaded (record { user_id = 9; user_name = codes "ann" })

abbrev resolved : Resolver
resolved = (resolve_irc_name ann 1500000000000 found empty).1

resolves_ann : (resolve_irc_name ann 1500000000000 found empty).0 ≡ resolved_to (some (pos 9))
unfolding resolve_irc_name get_id_by_user_name
resolves_ann = refl

-- The name is not asked for again within an hour when nobody has it.
unknown_is_kept :
    (get_id_by_user_name ann 1500003600000 found
      (get_id_by_user_name ann 1500000000000 unknown empty).1).0
    ≡ resolved_to none
unfolding get_id_by_user_name max_age same_text is_stale
unknown_is_kept = refl

unknown_is_asked_again :
    (get_id_by_user_name ann 1500003600001 found
      (get_id_by_user_name ann 1500000000000 unknown empty).1).0
    ≡ resolved_to (some (pos 9))
unfolding get_id_by_user_name max_age same_text is_stale
unknown_is_asked_again = refl

stale_when_timed_out :
    (get_id_by_user_name ann 1600000000000 timed_out
      (get_id_by_user_name ann 1500000000000 found empty).1).0
    ≡ resolved_to (some (pos 9))
unfolding get_id_by_user_name max_age same_text is_stale
stale_when_timed_out = refl

resolve_irc_name-set_mapping_example :
    (resolve_irc_name ann 1507776000000 failed (set_mapping ann (pos 4) 1500000000000 resolved)).0
    ≡ resolved_to (some (pos 4))
resolve_irc_name-set_mapping_example =
    resolve_irc_name-set_mapping ann 4 1500000000000 1507776000000 failed resolved refl
      (omega arith)

looked_ann : (get_id_by_user_name ann 1500000000000 found empty).0 ≡ resolved_to (some (pos 9))
unfolding get_id_by_user_name
looked_ann = refl

held : (set_mapping (codes "bob") (pos 5) 1500000000001 resolved).cache ann ≡ some (pos 9)
unfolding set_mapping resolve_irc_name get_id_by_user_name same_text
held = refl

Reach-Coherent_example :
    stored_id ((set_mapping (codes "bob") (pos 5) 1500000000001 resolved).table ann) ≡ some (pos 9)
Reach-Coherent_example =
    Reach-Coherent (λ _. refl)
      (next (next here (resolves ann 1500000000000 found))
        (maps (codes "bob") (pos 5) 1500000000001))
      ann (pos 9) held

put_cache-overwrites_example :
    let looked_up = get_id_by_user_name ann 1500000000000 found empty in
    let mapped = set_mapping ann (pos 4) 1500000000001 looked_up.1 in
    let t = (put_cache ann (looked_up.0, mapped)).1 in
    (stored_id (t.table ann) ≡ some (pos 4))
    × (resolve_irc_name ann 1500000000002 failed t ≡ (resolved_to (some (pos 9)), t))
put_cache-overwrites_example =
    put_cache-overwrites ann 1500000000000 1500000000001 1500000000002 found failed empty (pos 9)
      (pos 4) looked_ann
