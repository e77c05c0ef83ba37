-- ===== src/Redis/Sets.antt =====
-- What each command does to the members of the sets.
use huddle.Prelude.{
  ℕ, suc, ◌≡◌, refl, ◌∙◌, Option, List, [], ◌∷◌, arith, ite, String, if◌then◌else◌, has, ◌<◌, ◌+◌,
  ◌*◌,
}
use huddle.Dict
use huddle.Records.{Key, Value, Key-discrete}
use huddle.Redis.{
  Store, is_past, or_empty, Mode, cleanup_string, add_member, drop_member, drop_members,
  cleanup_set, get, set, getdel, mget, sadd, srem, smembers, del_one, del, expire,
}
use huddle.Redis.Strings.{among}

-- The members that a key shows at an instant.
unfoldable pub members : ℕ → Store → Key → List String
members now r k =
    if is_past now (Dict.get Key-discrete k r.set_expires_at)
    then []
    else or_empty (Dict.get Key-discrete k r.sets)

-- The members that are left when each of a list is deleted.
abbrev pub without : List String → List String → List String
without [] s = s
without (m ∷ ms) s = without ms (drop_member m s)

without_nil : (ms : List String) → without ms [] ≡ []
without_nil [] = refl
without_nil (m ∷ ms) = without_nil ms

drop_members-without : (ms s : List String) (n : ℕ) → (drop_members s ms n).0 ≡ without ms s
unfolding drop_members
drop_members-without [] s n = refl
drop_members-without (m ∷ ms) s n =
    drop_members-without ms (drop_member m s) (if has m s then suc n else n)

module _ (now : ℕ) (k : Key) (r : Store) where
  pub smembers-members : (smembers now k r).0 ≡ members now r k
  unfolding smembers members cleanup_set
  smembers-members = ground (arith, Dict.get-remove Key-discrete k k r.sets)

module _ (now : ℕ) (k j : Key) (r : Store) where
  pub members-get : members now (get now k r).1 j ≡ members now r j
  unfolding get members
  members-get = ground arith

  pub members-set :
      (v : Value) (ttl : Option ℕ) (mode : Mode)
      → members now (set now k v ttl mode r).1 j ≡ members now r j
  unfolding set members
  members-set v ttl mode = ground arith

  pub members-getdel : members now (getdel now k r).1 j ≡ members now r j
  unfolding getdel members
  members-getdel = ground arith

  pub members-cleanup_set : members now (cleanup_set now k r) j ≡ members now r j
  unfolding members cleanup_set
  members-cleanup_set = ground (
    arith,
    Dict.get-remove Key-discrete j k r.sets,
    Dict.get-remove Key-discrete j k r.set_expires_at,
  )

  pub members-smembers : members now (smembers now k r).1 j ≡ members now r j
  unfolding smembers
  members-smembers = members-cleanup_set

  pub members-sadd :
      (m : String)
      → members now (sadd now k (m ∷ []) r).1 j
        ≡ ite (Key-discrete k j) (add_member (members now r k) m) (members now r j)
  unfolding sadd members cleanup_set
  members-sadd m =
      let s : List String =
        add_member (or_empty (Dict.get Key-discrete k (cleanup_set now k r).sets)) m in
      ground (
        arith,
        Dict.get-remove Key-discrete k k r.sets,
        Dict.get-remove Key-discrete j k r.sets,
        Dict.get-remove Key-discrete j k r.set_expires_at,
        Dict.get-set Key-discrete j k s (cleanup_set now k r).sets,
      )

  pub members-srem :
      (ms : List String)
      → members now (srem now k ms r).1 j
        ≡ ite (Key-discrete k j) (without ms (members now r k)) (members now r j)
  unfolding srem members cleanup_set
  members-srem ms =
      let s : List String =
        without ms (or_empty (Dict.get Key-discrete k (cleanup_set now k r).sets)) in
      ground (
        arith,
        without_nil ms,
        drop_members-without ms [] 0,
        drop_members-without ms (or_empty (Dict.get Key-discrete k (cleanup_set now k r).sets)) 0,
        Dict.get-remove Key-discrete k k r.sets,
        Dict.get-remove Key-discrete j k r.sets,
        Dict.get-remove Key-discrete j k r.set_expires_at,
        Dict.get-set Key-discrete j k s (cleanup_set now k r).sets,
      )

  members-del_one : members now (del_one k r).1 j ≡ ite (Key-discrete k j) [] (members now r j)
  unfolding del_one members
  members-del_one = ground (
    arith,
    Dict.get-remove Key-discrete j k r.sets,
    Dict.get-remove Key-discrete j k r.set_expires_at,
  )

  pub members-expire :
      (seconds : ℕ) → 0 < seconds → members now (expire now k seconds r).1 j ≡ members now r j
  unfolding expire members cleanup_set cleanup_string
  members-expire seconds h = ground (
    arith,
    Dict.get-remove Key-discrete j k r.sets,
    Dict.get-remove Key-discrete k k r.sets,
    Dict.get-remove Key-discrete j k r.set_expires_at,
    Dict.get-set Key-discrete j k (now + seconds * 1000) r.set_expires_at,
    Dict.get-set Key-discrete j k (now + seconds * 1000)
        (Dict.remove Key-discrete k r.set_expires_at),
  )

pub members-del :
    (now : ℕ) (ks : List Key) (j : Key) (r : Store)
    → members now (del ks r).1 j ≡ (if among j ks then [] else members now r j)
unfolding del
members-del now [] j r = refl
members-del now (k ∷ ks) j r =
    ground (arith, members-del now ks j (del_one k r).1, members-del_one now k j r)

pub members-mget :
    (now : ℕ) (ks : List Key) (j : Key) (r : Store)
    → members now (mget now ks r).1 j ≡ members now r j
unfolding mget
members-mget now [] j r = refl
members-mget now (k ∷ ks) j r = members-mget now ks j (get now k r).1 ∙ members-get now k j r

pub ruleset set_laws = (
  members-get, members-set, members-getdel, members-smembers, smembers-members, members-sadd,
  members-srem, members-del, members-expire, members-mget,
)
