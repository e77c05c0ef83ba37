-- ===== src/RoomsService/Hosting.antt =====
-- Who is let in as host, whom a removal keeps out, and how a room gets its code.
use huddle.Prelude.{ℕ, ◌≡◌, ◌≢◌, String, Option, none, some, List, [], ◌∷◌, true, false, arith}
use huddle.Records.{DirectRejoinGrant}
use huddle.RoomState.{
  get_direct_rejoin_grant, get_direct_rejoin_grant_by_identity,
  revoke_direct_rejoin_grant_by_identity,
}
use huddle.RoomState.Rejoin.{revoke_direct_rejoin_grant_by_identity_lem}
use huddle.Fault.{Exception, ok, err}
use huddle.RoomsWorld
use huddle.RoomsWorld.{
  AuthUser, RoomRow, NewRoom, Rooms, World, Environment, mint_token, RejoinMetadata, TokenOptions,
}
use huddle.Admission.{rejoin_not_allowed, direct_rejoin}
use huddle.RoomsService.{
  HostJoin, allocate, host_join, mint_host_join, remove, is_direct_rejoin_participant_valid,
}

module _ (db : Rooms) (env : Environment) where
  -- Drawing room codes until one is free never ends in the database's unique-constraint error: a
  -- code that is taken leads to the next one, and running out of codes to a failure.
  pub allocate_total :
      (host_key : String) (start : Option ℕ) (host : String) (codes : List String)
      (w : World db.Table)
      → (allocate db env host_key start host codes w).0 ≢ err Exception.unique_violation
  unfolding allocate
  allocate_total host_key start host [] w = ground arith
  allocate_total host_key start host (code ∷ codes) w =
      let new : NewRoom = record {
        slug = code;
        host_key = host_key;
        host_user_id = host;
        scheduled_start = start;
      } in
      let w' = record w { rooms = (db.insert new w.rooms).1 } in
      ground (arith, allocate_total host_key start host codes w')

  -- When the room exists, host credentials go only to the account that hosts it, with the room's
  -- own key.
  pub host_join_sound :
      (slug : String) (host : AuthUser) (room : RoomRow) (w : World db.Table) {j : HostJoin}
      → db.find_by_slug slug w.rooms ≡ some room
      → (host_join db env slug host w).0 ≡ ok j
      → (room.host_user_id ≡ host.id) × (j.host_key ≡ room.host_key) × (j.room ≡ room.slug)
  unfolding host_join mint_host_join RoomsWorld.require_room RoomsWorld.mint
      RoomsWorld.get_mute_on_entry
  host_join_sound slug host room w found done = ground arith

  remove-redis :
      (slug identity : String) (w : World db.Table)
      → env.is_connected w.livekit slug identity ≡ some true
      → ((remove db env slug identity w).1.redis
          ≡ (revoke_direct_rejoin_grant_by_identity w.now slug identity w.redis).1)
        × ((remove db env slug identity w).1.now ≡ w.now)
        × ((remove db env slug identity w).1.rooms ≡ w.rooms)
  unfolding remove
  remove-redis slug identity w connected = ground arith

  direct_rejoin_refused :
      (slug : String) (guest : AuthUser) (room : RoomRow) (w : World db.Table)
      → db.find_by_slug slug w.rooms ≡ some room
      → (get_direct_rejoin_grant w.now slug guest.id w.redis).0 ≡ none
      → (direct_rejoin db env slug guest w).0 ≡ err rejoin_not_allowed
  unfolding direct_rejoin RoomsWorld.require_room
  direct_rejoin_refused slug guest room w exists gone = ground arith

  participant_invalid :
      (slug room_sid identity : String) (metadata : RejoinMetadata) (w : World db.Table)
      → (get_direct_rejoin_grant_by_identity w.now slug identity w.redis).0 ≡ none
      → (is_direct_rejoin_participant_valid db env slug room_sid identity metadata w).0 ≡ ok false
  unfolding is_direct_rejoin_participant_valid
  participant_invalid slug room_sid identity metadata w gone = ground arith

  -- Once the host of a room has removed a connected participant whose identity is that of a Direct
  -- Rejoin Grant, the account of the grant cannot rejoin without knocking and the identity is no
  -- valid participant, also where LiveKit refused to disconnect the participant.
  pub remove_lem :
      (slug identity : String) (g : DirectRejoinGrant) (room : RoomRow) (guest : AuthUser)
      (room_sid : String) (metadata : RejoinMetadata) (w : World db.Table)
      → db.find_by_slug slug w.rooms ≡ some room
      → env.is_connected w.livekit slug identity ≡ some true
      → (get_direct_rejoin_grant_by_identity w.now slug identity w.redis).0 ≡ some g
      → g.user_id ≡ guest.id
      → let w' = (remove db env slug identity w).1 in
        ((direct_rejoin db env slug guest w').0 ≡ err rejoin_not_allowed)
        × ((is_direct_rejoin_participant_valid db env slug room_sid identity metadata w').0
            ≡ ok false)
  remove_lem slug identity g room guest room_sid metadata w exists connected found mine =
      let w' = (remove db env slug identity w).1 in
      let (redis, time, rooms) = remove-redis slug identity w connected in
      let (answer, no_user, no_identity) =
        revoke_direct_rejoin_grant_by_identity_lem w.now slug identity g w.redis found in
      (
        direct_rejoin_refused slug guest room w' (rw (rooms) exists)
            (rw (redis, time, ← mine) no_user),
        participant_invalid slug room_sid identity metadata w' (rw (redis, time) no_identity),
      )
