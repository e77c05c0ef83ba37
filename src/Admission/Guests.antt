-- ===== src/Admission/Guests.antt =====
-- What a guest who comes back, and a knock that is answered twice, get.
use huddle.Prelude.{◌≡◌, ◌++◌, String, some, [], ◌∷◌, true, false, arith}
use huddle.Records.{Knock, DirectRejoinGrant}
use huddle.RoomState.{get_knock, get_direct_rejoin_grant, is_pending, is_grant}
use huddle.Fault.{ok}
use huddle.RoomsWorld
use huddle.RoomsWorld.{
  AuthUser, Rooms, World, Environment, mint_token, RejoinMetadata, TokenOptions,
}
use huddle.Admission.{
  GuestJoin, metadata_of, guest_options, direct_rejoin, admit_once, deny, require_knock,
}

module _ (db : Rooms) (env : Environment) where
  -- A guest whose account holds a grant rejoins without knocking only if the LiveKit room instance
  -- of the grant is there before and after the token is minted, and the grant is still the one in
  -- force after it, whatever other requests did to Redis meanwhile; the guest gets the identity of
  -- the grant.
  pub direct_rejoin_sound :
      (slug : String) (guest : AuthUser) (g : DirectRejoinGrant) (w : World db.Table)
      {j : GuestJoin}
      → (get_direct_rejoin_grant w.now slug guest.id w.redis).0 ≡ some g
      → (direct_rejoin db env slug guest w).0 ≡ ok j
      → let redis = (get_direct_rejoin_grant w.now slug guest.id w.redis).1 in
        let options =
          guest_options slug g.identity guest.name guest.image
            (some guest.id)
            (some (metadata_of g)) in
        (j.identity ≡ g.identity)
        × (env.room_sid w.livekit slug ≡ some (some g.room_sid))
        × (is_grant g.grant_id (get_direct_rejoin_grant w.now slug guest.id (env.meanwhile redis)).0
            ≡ true)
        × (env.room_sid (w.livekit ++ mint_token options ∷ []) slug ≡ some (some g.room_sid))
  unfolding direct_rejoin RoomsWorld.require_room RoomsWorld.get_room_sid RoomsWorld.mint
      RoomsWorld.get_mute_on_entry
  direct_rejoin_sound slug guest g w found done = ground arith

  -- Admitting or denying a knock that has been answered changes nothing and mints no token: the
  -- first answer is told.
  pub answered_stays :
      (grant_id slug knock_id : String) (k : Knock) (w : World db.Table)
      → (get_knock w.now slug knock_id w.redis).0 ≡ some k
      → is_pending k.status ≡ false
      → let w' = record w { redis = (get_knock w.now slug knock_id w.redis).1 } in
        (admit_once db env grant_id slug knock_id w ≡ (ok k.status, w'))
        × (deny db env slug knock_id w ≡ (ok k.status, w'))
  unfolding admit_once deny require_knock
  answered_stays grant_id slug knock_id k w found answered = ground arith
