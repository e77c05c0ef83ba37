-- ===== src/Redis.antt =====
-- apps/api/src/redis/fake-redis.ts, the in-memory stand-in with the semantics of the Redis client
-- that the room state services use. `Date.now()` is the argument `now`, in milliseconds, which
-- stands still during a command. Each command returns its reply and the store that it leaves.
pub mod Strings
pub mod Sets
use huddle.Prelude.{
  ℕ, ◌+◌, ◌*◌, suc, String, Option, none, some, List, [], ◌∷◌, ◌++◌, Bool, true, false, not, ◌&&◌,
  leb, if◌then◌else◌, is_some, has, keep, same,
}
use huddle.Dict
use huddle.Records.{Key, Value, Key-discrete}

pub record Entry : Type 0 where
  pub value : Value
  pub expires_at : Option ℕ

pub record Store : Type 0 where
  pub strings : List (Key × Entry)
  pub sets : List (Key × List String)
  pub set_expires_at : List (Key × ℕ)

abbrev pub empty : Store
empty = record { strings = []; sets = []; set_expires_at = [] }

-- `expiresAt != null && expiresAt <= Date.now()`
abbrev pub is_past : ℕ → Option ℕ → Bool
is_past now none = false
is_past now (some t) = leb t now

abbrev pub entry_expiry : Option Entry → Option ℕ
entry_expiry none = none
entry_expiry (some e) = e.expires_at

unfoldable pub cleanup_string : ℕ → Key → Store → Store
cleanup_string now k r =
    if is_past now (entry_expiry (Dict.get Key-discrete k r.strings))
    then record r { strings = Dict.remove Key-discrete k r.strings }
    else r

unfoldable pub cleanup_set : ℕ → Key → Store → Store
cleanup_set now k r =
    if is_past now (Dict.get Key-discrete k r.set_expires_at)
    then record r {
      sets = Dict.remove Key-discrete k r.sets;
      set_expires_at = Dict.remove Key-discrete k r.set_expires_at;
    }
    else r

abbrev pub value_of : Option Entry → Option Value
value_of none = none
value_of (some e) = some e.value

unfoldable pub get : ℕ → Key → Store → Option Value × Store
unfolding cleanup_string
get now k r = let r' = cleanup_string now k r in (value_of (Dict.get Key-discrete k r'.strings), r')

-- The options of `set`: NX, XX or neither; `EX` has its seconds in an option of its own.
pub data Mode : Type 0 where
  always nx xx : Mode

abbrev pub refuses : Mode → Bool → Bool
refuses always exists = false
refuses nx exists = exists
refuses xx exists = not exists

abbrev pub deadline : ℕ → Option ℕ → Option ℕ
deadline now none = none
deadline now (some seconds) = some (now + seconds * 1000)

-- The reply is `true` for 'OK' and `false` for null.
unfoldable pub set : ℕ → Key → Value → Option ℕ → Mode → Store → Bool × Store
unfolding cleanup_string
set now k v ttl mode r =
    let r' = cleanup_string now k r in
    if refuses mode (is_some (Dict.get Key-discrete k r'.strings)) then (false, r') else (
      true,
      record r' {
        strings =
            Dict.set Key-discrete k (record { value = v; expires_at = deadline now ttl })
              r'.strings;
      },
    )

unfoldable pub getdel : ℕ → Key → Store → Option Value × Store
unfolding get
getdel now k r =
    let (v, r') = get now k r in (v, record r' { strings = Dict.remove Key-discrete k r'.strings })

unfoldable pub mget : ℕ → List Key → Store → List (Option Value) × Store
unfolding get
mget now [] r = ([], r)
mget now (k ∷ ks) r = let (v, r') = get now k r in let (vs, r'') = mget now ks r' in (v ∷ vs, r'')

abbrev pub or_empty : Option (List String) → List String
or_empty none = []
or_empty (some s) = s

-- `set.add(m)`: a new member goes to the end.
abbrev pub add_member : List String → String → List String
add_member s m = if has m s then s else s ++ m ∷ []

-- The loop of `sadd`, with the count of the members that were new.
add_members : List String → List String → ℕ → List String × ℕ
add_members s [] added = (s, added)
add_members s (m ∷ ms) added =
    add_members (add_member s m) ms (if has m s then added else suc added)

unfoldable pub sadd : ℕ → Key → List String → Store → ℕ × Store
unfolding cleanup_set add_members
sadd now k ms r =
    let r' = cleanup_set now k r in
    let (s, added) = add_members (or_empty (Dict.get Key-discrete k r'.sets)) ms 0 in
    (added, record r' { sets = Dict.set Key-discrete k s r'.sets })

-- `set.delete(m)`
abbrev pub drop_member : String → List String → List String
drop_member m = keep (λ x. not (same x m))

drop_members : List String → List String → ℕ → List String × ℕ
drop_members s [] removed = (s, removed)
drop_members s (m ∷ ms) removed =
    drop_members (drop_member m s) ms (if has m s then suc removed else removed)

srem_from : Store → Key → List String → Option (List String) → ℕ × Store
unfolding drop_members
srem_from r k ms none = (0, r)
srem_from r k ms (some s) =
    let (s', removed) = drop_members s ms 0 in
    (removed, record r { sets = Dict.set Key-discrete k s' r.sets })

unfoldable pub srem : ℕ → Key → List String → Store → ℕ × Store
unfolding cleanup_set srem_from
srem now k ms r =
    let r' = cleanup_set now k r in srem_from r' k ms (Dict.get Key-discrete k r'.sets)

unfoldable pub smembers : ℕ → Key → Store → List String × Store
unfolding cleanup_set
smembers now k r = let r' = cleanup_set now k r in (or_empty (Dict.get Key-discrete k r'.sets), r')

-- `strings.delete(k)`, then `sets.delete(k)` with the set's expiry.
unfoldable pub del_one : Key → Store → ℕ × Store
del_one k r =
    let one = if is_some (Dict.get Key-discrete k r.strings) then 1 else 0 in
    let r' = record r { strings = Dict.remove Key-discrete k r.strings } in
    if is_some (Dict.get Key-discrete k r.sets)
    then (
      suc one,
      record r' {
        sets = Dict.remove Key-discrete k r'.sets;
        set_expires_at = Dict.remove Key-discrete k r'.set_expires_at;
      },
    )
    else (one, r')

unfoldable pub del : List Key → Store → ℕ × Store
del [] r = (0, r)
del (k ∷ ks) r = let (one, r') = del_one k r in let (more, r'') = del ks r' in (one + more, r'')

expire_from : ℕ → Key → Store → Option Entry → Bool → ℕ × Store
expire_from at k r (some e) _ = (
  1,
  record r { strings = Dict.set Key-discrete k (record e { expires_at = some at }) r.strings },
)
expire_from at k r none true =
    (1, record r { set_expires_at = Dict.set Key-discrete k at r.set_expires_at })
expire_from at k r none false = (0, r)

unfoldable pub expire : ℕ → Key → ℕ → Store → ℕ × Store
unfolding cleanup_string cleanup_set expire_from
expire now k seconds r =
    let r' = cleanup_set now k (cleanup_string now k r) in
    expire_from (now + seconds * 1000) k r' (Dict.get Key-discrete k r'.strings)
      (is_some (Dict.get Key-discrete k r'.sets))
