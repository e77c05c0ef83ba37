-- ===== src/RoomState/Clearing.antt =====
-- The end of a LiveKit room instance: which Direct Rejoin Grants it takes with it.
use mathlib.Core.List.{map-map}
use mathlib.Core.Path.{fun_ext}
use huddle.Prelude.{
  Option-cases, ap, ◌∙◌, ℕ, ◌≡◌, ◌⊎◌, inl, inr, refl, String, Option, none, some, List, [], ◌∷◌,
  Bool, false, ◌&&◌, if◌then◌else◌, same, arith, map, has,
}
use huddle.Records.{
  DirectRejoinGrant, Key, Value, rejoin_json, as_rejoin, direct_rejoin_key, direct_rejoin_index_key,
}
use huddle.Redis
use huddle.Redis.{Store, Entry, value_of, drop_member}
use huddle.Redis.Strings.{entry, entry-smembers, entry-mget, mget-entry}
use huddle.Redis.Sets.{members, smembers-members}
use huddle.RoomState.{
  grants_of, for_each, get_direct_rejoin_grant, add_direct_rejoin_grant, remove_direct_rejoin_grant,
  clear_direct_rejoin_grants,
}
use huddle.RoomState.Rejoin.{held, add_lem, remove_lem, get_direct_rejoin_grant-held}

-- A grant is stored under the key of its own room and user.
abbrev pub IsKeyed : ℕ → String → Store → Type 0
IsKeyed now room r =
    (i : String) (g : DirectRejoinGrant)
    → as_rejoin (value_of (entry now r (direct_rejoin_key room i))) ≡ some g
    → (g.room ≡ room) × (g.user_id ≡ i)

-- Is the grant of the LiveKit room instance?
abbrev pub is_call : String → Option DirectRejoinGrant → Bool
is_call room_sid none = false
is_call room_sid (some g) = same g.room_sid room_sid

abbrev cons_grant :
    String → Option DirectRejoinGrant → List DirectRejoinGrant → List DirectRejoinGrant
cons_grant room_sid none gs = gs
cons_grant room_sid (some g) gs = if same g.room_sid room_sid then g ∷ gs else gs

grants_of-cons :
    (room_sid : String) (v : Option Value) (raws : List (Option Value))
    → grants_of room_sid (v ∷ raws) ≡ cons_grant room_sid (as_rejoin v) (grants_of room_sid raws)
grants_of-cons room_sid (some (rejoin_json g)) raws = refl
grants_of-cons room_sid (some v) raws = ground arith
grants_of-cons room_sid none raws = refl

module _ (now : ℕ) (room room_sid user_id : String) (r₀ : Store) (keyed : IsKeyed now room r₀) where
  abbrev raw : String → Option Value
  raw i = value_of (entry now r₀ (direct_rejoin_key room i))

  abbrev user_key : Key
  user_key = direct_rejoin_key room user_id

  remove_all_lem :
      (ids : List String) (r : Store)
      → (entry now r user_key ≡ entry now r₀ user_key) ⊎ (entry now r user_key ≡ none)
      → entry now
          (for_each (remove_direct_rejoin_grant now) (grants_of room_sid (map raw ids)) r).1
          user_key
        ≡ (if has user_id ids && is_call room_sid (held now room user_id r₀)
            then none
            else entry now r user_key)
  unfolding for_each
  remove_all_lem [] r start = refl
  remove_all_lem (i ∷ ids) r start =
      rw (grants_of-cons room_sid (raw i) (map raw ids)) (elim (Option-cases (as_rejoin (raw i))) [
        | inl e ↦ ground (arith, remove_all_lem ids r start)
        | inr (g, e) ↦ ground (
          arith,
          keyed i g e,
          remove_lem now g r user_key,
          remove_all_lem ids r start,
          remove_all_lem ids (remove_direct_rejoin_grant now g r).1,
        )
      ])

raws_lem :
    (now : ℕ) (room : String) (ids : List String) (r : Store)
    → let r1 = (Redis.smembers now (direct_rejoin_index_key room) r).1 in
      (Redis.mget now (map (direct_rejoin_key room) ids) r1).0
      ≡ map (λ id. value_of (entry now r (direct_rejoin_key room id))) ids
raws_lem now room ids r =
    let index = direct_rejoin_index_key room in
    mget-entry now (map (direct_rejoin_key room) ids) (Redis.smembers now index r).1
    ∙ map-map _ (direct_rejoin_key room) ids
    ∙ ap (λ f. map f ids)
        (fun_ext λ id. ap value_of (entry-smembers now index (direct_rejoin_key room id) r))

clear-entry :
    (now : ℕ) (room room_sid user_id : String) (r : Store)
    → IsKeyed now room r
    → entry now (clear_direct_rejoin_grants now room room_sid r).1 (direct_rejoin_key room user_id)
      ≡ (if has user_id (members now r (direct_rejoin_index_key room))
            && is_call room_sid (held now room user_id r)
          then none
          else entry now r (direct_rejoin_key room user_id))
unfolding clear_direct_rejoin_grants
clear-entry now room room_sid user_id r keyed =
    let index = direct_rejoin_index_key room in
    let key = direct_rejoin_key room user_id in
    let r1 = (Redis.smembers now index r).1 in
    let ids = (Redis.smembers now index r).0 in
    let keys = map (direct_rejoin_key room) ids in
    ground (
      arith,
      smembers-members now index r,
      raws_lem now room ids r,
      entry-smembers now index key r,
      entry-mget now keys key r1,
      remove_all_lem now room room_sid user_id r keyed ids (Redis.mget now keys r1).1,
    )

-- When a LiveKit room instance finishes, the grants that end are those of that instance whose
-- users the room's index names; a grant of a later call under the same room code stays.
pub clear_direct_rejoin_grants_lem :
    (now : ℕ) (room room_sid user_id : String) (r : Store)
    → IsKeyed now room r
    → (get_direct_rejoin_grant now room user_id
        (clear_direct_rejoin_grants now room room_sid r).1).0
      ≡ (if has user_id (members now r (direct_rejoin_index_key room))
            && is_call room_sid (get_direct_rejoin_grant now room user_id r).0
          then none
          else (get_direct_rejoin_grant now room user_id r).0)
clear_direct_rejoin_grants_lem now room room_sid user_id r keyed = ground (
  arith,
  clear-entry now room room_sid user_id r keyed,
  get_direct_rejoin_grant-held now room user_id r,
  get_direct_rejoin_grant-held now room user_id (clear_direct_rejoin_grants now room room_sid r).1,
)

-- A new grant is stored under its own room and user, like those before it.
pub add_direct_rejoin_grant-IsKeyed :
    (now : ℕ) (id room room_sid user_id identity other : String) (r : Store)
    → IsKeyed now other r
    → IsKeyed now other (add_direct_rejoin_grant now id room room_sid user_id identity r).1
add_direct_rejoin_grant-IsKeyed now id room room_sid user_id identity other r keyed i g e =
    ground (
      arith,
      keyed i g,
      add_lem now id room room_sid user_id identity r (direct_rejoin_key other i),
    )

-- So it is when a grant is removed.
pub remove_direct_rejoin_grant-IsKeyed :
    (now : ℕ) (g : DirectRejoinGrant) (room : String) (r : Store)
    → IsKeyed now room r
    → IsKeyed now room (remove_direct_rejoin_grant now g r).1
remove_direct_rejoin_grant-IsKeyed now g room r keyed i h e =
    ground (arith, keyed i h, remove_lem now g r (direct_rejoin_key room i))
