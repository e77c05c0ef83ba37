-- ===== src/Redis/Strings.antt =====
-- What each command does to the entries that are alive at its instant.
use mathlib.Core.Path.{ap₂, fun_ext}
use huddle.Prelude.{
  ◌+◌, ◌*◌, Option-cases, inl, inr, map, ap, ◌∙◌, ℕ, ◌≤◌, ◌≡◌, refl, Option, none, some, List, [],
  ◌∷◌, Bool, true, false, arith, ite, String, if◌then◌else◌, is_some,
}
use huddle.Dict
use huddle.Records.{Key, Value, Key-discrete}
use huddle.Redis.{
  Entry, Store, is_past, entry_expiry, value_of, Mode, refuses, deadline, cleanup_string,
  cleanup_set, get, set, getdel, mget, sadd, srem, smembers, del_one, del, expire,
}

abbrev alive : ℕ → Option Entry → Option Entry
alive now o = if is_past now (entry_expiry o) then none else o

-- The entry that a key shows at an instant.
unfoldable pub entry : ℕ → Store → Key → Option Entry
entry now r k = alive now (Dict.get Key-discrete k r.strings)

-- Time only takes entries away, at their deadline.
pub entry_later :
    (now later : ℕ) (r : Store) (k : Key)
    → now ≤ later
    → entry later r k ≡ alive later (entry now r k)
unfolding entry
entry_later now later r k h = ground arith

module _ (now : ℕ) (k : Key) (r : Store) where
  pub get-entry : (get now k r).0 ≡ value_of (entry now r k)
  unfolding get entry cleanup_string
  get-entry = ground (arith, Dict.get-remove Key-discrete k k r.strings)

  -- `SET` is refused exactly by NX at a live key and by XX at a missing one.
  pub set-reply :
      (v : Value) (ttl : Option ℕ) (mode : Mode)
      → (set now k v ttl mode r).0
        ≡ (if refuses mode (is_some (entry now r k)) then false else true)
  unfolding set entry cleanup_string
  set-reply v ttl mode = ground (arith, Dict.get-remove Key-discrete k k r.strings)

  pub getdel-entry : (getdel now k r).0 ≡ value_of (entry now r k)
  unfolding getdel
  getdel-entry = get-entry

module _ (now : ℕ) (k j : Key) (r : Store) where
  entry-cleanup_string : entry now (cleanup_string now k r) j ≡ entry now r j
  unfolding entry cleanup_string
  entry-cleanup_string = ground (arith, Dict.get-remove Key-discrete j k r.strings)

  pub entry-get : entry now (get now k r).1 j ≡ entry now r j
  unfolding get
  entry-get = entry-cleanup_string

  pub entry-set :
      (v : Value) (ttl : Option ℕ) (mode : Mode)
      → entry now (set now k v ttl mode r).1 j ≡ (
          if (set now k v ttl mode r).0
          then ite
              (Key-discrete k j)
              (alive now (some (record { value = v; expires_at = deadline now ttl })))
              (entry now r j)
          else entry now r j)
  unfolding set entry cleanup_string
  entry-set v ttl mode =
      let e : Entry = record { value = v; expires_at = deadline now ttl } in
      ground (
        arith,
        Dict.get-remove Key-discrete j k r.strings,
        Dict.get-set Key-discrete j k e r.strings,
        Dict.get-set Key-discrete j k e (Dict.remove Key-discrete k r.strings),
      )

  pub entry-getdel : entry now (getdel now k r).1 j ≡ ite (Key-discrete k j) none (entry now r j)
  unfolding getdel entry get cleanup_string
  entry-getdel = ground (
    arith,
    Dict.get-remove Key-discrete j k r.strings,
    Dict.get-remove Key-discrete j k (Dict.remove Key-discrete k r.strings),
  )

  pub entry-smembers : entry now (smembers now k r).1 j ≡ entry now r j
  unfolding smembers entry
  entry-smembers = ground arith

  pub entry-sadd : (ms : List String) → entry now (sadd now k ms r).1 j ≡ entry now r j
  unfolding sadd entry
  entry-sadd ms = ground arith

  pub entry-srem : (ms : List String) → entry now (srem now k ms r).1 j ≡ entry now r j
  unfolding srem entry
  entry-srem ms = ground arith

  entry-del_one : entry now (del_one k r).1 j ≡ ite (Key-discrete k j) none (entry now r j)
  unfolding del_one entry
  entry-del_one = ground (arith, Dict.get-remove Key-discrete j k r.strings)

-- Is the key one of the list?
abbrev pub among : Key → List Key → Bool
among j [] = false
among j (k ∷ ks) = let later = among j ks in ite (Key-discrete k j) true later

pub entry-del :
    (now : ℕ) (ks : List Key) (j : Key) (r : Store)
    → entry now (del ks r).1 j ≡ (if among j ks then none else entry now r j)
unfolding del
entry-del now [] j r = refl
entry-del now (k ∷ ks) j r =
    ground (arith, entry-del now ks j (del_one k r).1, entry-del_one now k j r)

abbrev retimed : ℕ → Option Entry → Option Entry
retimed at none = none
retimed at (some e) = some (record e { expires_at = some at })

-- `EXPIRE` moves the deadline of a string under its key, and touches no other entry.
pub entry-expire :
    (now : ℕ) (k j : Key) (r : Store) (seconds : ℕ)
    → entry now (expire now k seconds r).1 j
      ≡ ite
          (Key-discrete k j)
          (alive now (retimed (now + seconds * 1000) (entry now r k)))
          (entry now r j)
unfolding expire entry cleanup_string cleanup_set
entry-expire now k j r seconds = elim (Option-cases (Dict.get Key-discrete k r.strings)) [
  | inl e ↦ ground (
    arith,
    e,
    Dict.get-remove Key-discrete j k r.strings,
    Dict.get-remove Key-discrete k k r.strings,
  )
  | inr (x, e) ↦ ground (
    arith,
    e,
    Dict.get-remove Key-discrete j k r.strings,
    Dict.get-remove Key-discrete k k r.strings,
    Dict.get-set Key-discrete j k (record x { expires_at = some (now + seconds * 1000) }) r.strings,
  )
]

pub entry-mget :
    (now : ℕ) (ks : List Key) (j : Key) (r : Store) → entry now (mget now ks r).1 j ≡ entry now r j
unfolding mget
entry-mget now [] j r = refl
entry-mget now (k ∷ ks) j r = entry-mget now ks j (get now k r).1 ∙ entry-get now k j r

-- `MGET` reads each key as `GET` would.
pub mget-entry :
    (now : ℕ) (ks : List Key) (r : Store)
    → (mget now ks r).0 ≡ map (λ k. value_of (entry now r k)) ks
unfolding mget
mget-entry now [] r = refl
mget-entry now (k ∷ ks) r = ap₂ ◌∷◌ (get-entry now k r) (
    mget-entry now ks (get now k r).1
    ∙ ap (λ f. map f ks) (fun_ext λ j. ap value_of (entry-get now k j r)))

pub ruleset string_laws = (
  entry-get, get-entry, set-reply, entry-set, getdel-entry, entry-getdel, entry-smembers,
  entry-sadd, entry-srem, entry-del, entry-expire, entry-mget, mget-entry,
)
