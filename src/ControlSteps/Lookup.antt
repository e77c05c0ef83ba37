-- ===== src/ControlSteps/Lookup.antt =====
-- Looking a request up by its id, after it became the active session of its room.
use huddle.Prelude.{ap, ℕ, ◌≡◌, String, none, some, arith}
use huddle.Records.{Key, owner_key, pending_key, active_key, as_pending, as_text}
use huddle.Redis.{Store, value_of}
use huddle.Redis.Strings.{entry, string_laws}
use huddle.ControlState.{pending_for, get_pending, release_pending}
use huddle.ControlState.Lock.{holder, session, HeldIn, release_pending-active}
use huddle.ControlState.Holder.{release_pending_unlocks}
use huddle.ControlRepo.{Sessions}
use huddle.Fault.{ok, err}
use huddle.ControlWorld.{Environment, World, not_found}
use huddle.ControlSteps.{expire_pending, require_pending}

get_pending_lem :
    (now : ℕ) (room id : String) (r : Store)
    → (get_pending now room id r).0
      ≡ pending_for room id (as_pending (value_of (entry now r (pending_key room))))
unfolding get_pending
get_pending_lem now room id r = grind (arith, string_laws)

get_pending-entry :
    (now : ℕ) (room id : String) (r : Store) (j : Key)
    → entry now (get_pending now room id r).1 j ≡ entry now r j
unfolding get_pending
get_pending-entry now room id r j = grind (arith, string_laws)

module _ (db : Sessions) (env : Environment) where
  -- Every path of `expirePending` gives the request up.
  expire_pending-redis :
      (room id : String) (w : World db.Table)
      → ((expire_pending db env room id w).0 ≡ ok tt)
        × ((expire_pending db env room id w).1.redis ≡ (release_pending w.now room id w.redis).1)
        × ((expire_pending db env room id w).1.now ≡ w.now)
  unfolding expire_pending
  expire_pending-redis room id w = ground arith

  -- A request that is not pending any more is not found, and is given up.
  require_pending_missing :
      (room id : String) (w : World db.Table)
      → entry w.now w.redis (pending_key room) ≡ none
      → ((require_pending db env room id w).0 ≡ err not_found)
        × ((require_pending db env room id w).1.redis
            ≡ (release_pending w.now room id (get_pending w.now room id w.redis).1).1)
        × ((require_pending db env room id w).1.now ≡ w.now)
  unfolding require_pending
  require_pending_missing room id w gone = ground (
    arith,
    get_pending_lem w.now room id w.redis,
    expire_pending-redis room id (record w { redis = (get_pending w.now room id w.redis).1 }),
  )

  -- When the active session of a room is under the room's lock with the lock's deadline, and the
  -- pending record of its request is gone, whoever looks the request up is told that it was not
  -- found, and the lookup takes the lock away from the session, which stays active.
  pub require_pending_drops_lock :
      (room id : String) (w : World db.Table)
      → HeldIn w.now room w.redis
      → session w.now w.redis room ≡ some id
      → entry w.now w.redis (pending_key room) ≡ none
      → let w' = (require_pending db env room id w).1 in
        ((require_pending db env room id w).0 ≡ err not_found)
        × (holder w'.now w'.redis room ≡ none)
        × (session w'.now w'.redis room ≡ some id)
  require_pending_drops_lock room id w held active gone =
      let r1 = (get_pending w.now room id w.redis).1 in
      let same_active = get_pending-entry w.now room id w.redis (active_key room) in
      let same_owner = get_pending-entry w.now room id w.redis (owner_key room) in
      let (outcome, redis, time) = require_pending_missing room id w gone in
      rw (redis, time)
        (
          outcome,
          ap (λ o. as_text (value_of o))
              (release_pending_unlocks w.now room id r1 (ground (arith, held))
                (ground (arith, active))),
          ground (arith, release_pending-active w.now room id r1 room),
        )
