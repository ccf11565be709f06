-- ===== src/Resolver.antt =====
-- tillerinobot/src/main/java/tillerino/tillerinobot/IrcNameResolver.java: the table of user names,
-- whose key is the name, and the cache before it, which never expires and drops nothing while it has
-- room. Names are lists of code points, times milliseconds. What the API answers and the clock are
-- arguments. The semaphore of a name admits one `resolveIRCName` for it at a time.
pub mod Coherence
pub mod Reuse
mod Tests
use tillerinobot.Prelude.{
  ℕ, ◌+◌, ◌*◌, ◌-◌, Bool, true, false, ◌&&◌, ◌||◌, Option, none, some, List, [], ◌∷◌, if◌then◌else◌,
  ltb, leb, ◌==◌,
}
use tillerinobot.Prelude.Int.{ℤ, pos, negsuc}
use tillerinobot.Frontend.Welcome.{same_text}
use tillerinobot.Bot.{ApiUser, get_irc_user_name}

-- `UserNameMapping`.
pub record Mapping : Type 0 where
  pub user_id : ℤ
  pub resolved : ℕ
  pub first_resolve_attempt : ℕ

pub record Resolver : Type 0 where
  pub table : List ℕ → Option Mapping
  pub cache : List ℕ → Option ℤ

-- What the API answers: a user, null, an `IOException` that is a timeout, or another exception.
pub data Answer : Type 0 where
  downloaded : ApiUser → Answer
  unknown timed_out failed : Answer

-- The end of a method that returns an id or null, or throws. A returned user stands as his id.
pub data Resolved : Type 0 where
  resolved_to : Option ℤ → Resolved
  throws : Resolved

abbrev pub update : {A : Type 0} → (List ℕ → Option A) → List ℕ → Option A → List ℕ → Option A
update f k v n = if same_text k n then v else f n

abbrev pub hour : ℕ
hour = 60 * 60 * 1000

abbrev pub day : ℕ
day = 24 * 60 * 60 * 1000

abbrev pub base_age : ℕ
base_age = 90 * day

-- 90 days, and more in the week before January 7th, 2017.
pub max_age : ℕ → ℕ
max_age now =
    if ltb now 1483747380000
    then base_age
      + (if leb base_age (12 * (1483747380000 - now)) then base_age else 12 * (1483747380000 - now))
    else base_age

abbrev pub is_positive : ℤ → Bool
is_positive (pos n) = ltb 0 n
is_positive (negsuc n) = false

abbrev pub is_negative : ℤ → Bool
is_negative (pos n) = false
is_negative (negsuc n) = true

pub is_stale : Mapping → ℕ → Bool
unfolding max_age
is_stale m now =
    (is_positive m.user_id && ltb (m.resolved + max_age now) now)
    || (is_negative m.user_id && ltb (m.resolved + day) now)
    || (is_negative m.user_id
        && (ltb (m.resolved + hour) now && ltb now (m.first_resolve_attempt + day)))

-- `userid == -1` is null.
abbrev pub known : ℤ → Option ℤ
known (pos n) = some (pos n)
known (negsuc n) = if n == 0 then none else some (negsuc n)

abbrev pub id_of : ApiUser → ℤ
id_of u = pos u.user_id

store : List ℕ → Mapping → ℤ → ℕ → Resolver → Resolved × Resolver
store nick m id now r = (
  resolved_to (known id),
  record r { table = update r.table nick (some (record m { user_id = id; resolved = now })) },
)

-- Asking the API for a mapping that is missing or stale.
ask : List ℕ → Mapping → ℕ → Answer → Resolver → Resolved × Resolver
unfolding store
ask nick m now (downloaded u) r = store nick m (id_of u) now r
ask nick m now unknown r = store nick m (negsuc 0) now r
ask nick m now timed_out r =
    if is_positive m.user_id then (resolved_to (some m.user_id), r) else (throws, r)
ask nick m now failed r = (throws, r)

pub id_by_mapping : Option Mapping → List ℕ → ℕ → Answer → Resolver → Resolved × Resolver
unfolding ask
id_by_mapping none nick now answer r =
    ask nick (record { user_id = pos 0; resolved = 0; first_resolve_attempt = now }) now answer r
id_by_mapping (some m) nick now answer r =
    if is_stale m now then ask nick m now answer r else (resolved_to (known m.user_id), r)

pub get_id_by_user_name : List ℕ → ℕ → Answer → Resolver → Resolved × Resolver
unfolding id_by_mapping
get_id_by_user_name nick now answer r = id_by_mapping (r.table nick) nick now answer r

-- `resolvedIRCNames.put`, unless the result is null.
pub put_cache : List ℕ → Resolved × Resolver → Resolved × Resolver
put_cache nick (resolved_to none, r) = (resolved_to none, r)
put_cache nick (resolved_to (some id), r) =
    (resolved_to (some id), record r { cache = update r.cache nick (some id) })
put_cache nick (throws, r) = (throws, r)

pub resolve_cached : Option ℤ → List ℕ → ℕ → Answer → Resolver → Resolved × Resolver
unfolding put_cache
resolve_cached (some id) nick now answer r = (resolved_to (some id), r)
resolve_cached none nick now answer r = put_cache nick (get_id_by_user_name nick now answer r)

pub resolve_irc_name : List ℕ → ℕ → Answer → Resolver → Resolved × Resolver
unfolding resolve_cached
resolve_irc_name nick now answer r = resolve_cached (r.cache nick) nick now answer r

pub set_mapping : List ℕ → ℤ → ℕ → Resolver → Resolver
set_mapping nick id now r = record {
  table =
      update r.table nick
        (some (record { user_id = id; resolved = now; first_resolve_attempt = 0 }));
  cache = update r.cache nick none;
}

pub redownload_user : List ℕ → ℕ → Answer → Resolver → Resolved × Resolver
unfolding set_mapping
redownload_user nick now (downloaded u) r =
    (resolved_to (some (id_of u)), set_mapping nick (id_of u) now r)
redownload_user nick now unknown r = (resolved_to none, set_mapping nick (negsuc 0) now r)
redownload_user nick now timed_out r = (throws, r)
redownload_user nick now failed r = (throws, r)

-- `pullThrough.getUser` of the id is what answers here.
pub resolve_manually : ℤ → ℕ → Answer → Resolver → Resolved × Resolver
unfolding set_mapping
resolve_manually id now (downloaded u) r =
    (resolved_to (some (id_of u)), set_mapping (get_irc_user_name u) id now r)
resolve_manually id now unknown r = (resolved_to none, r)
resolve_manually id now timed_out r = (throws, r)
resolve_manually id now failed r = (throws, r)
