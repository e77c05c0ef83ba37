-- ===== src/RoomsService.antt =====
-- The rest of apps/api/src/rooms/rooms.service.ts: the rooms of a host, what the host does to the
-- participants, and the end of a call. The clock stands still during one method.
pub mod Hosting
use huddle.ShareConsents
use huddle.Prelude.{
  ℕ, String, Option, none, some, List, [], ◌∷◌, map, Bool, true, false, not, ◌&&◌, leb, same,
  if◌then◌else◌,
}
use huddle.Records.{Knock, KnockStatus, DirectRejoinGrant}
use huddle.RoomState
use huddle.RoomState.{is_pending, is_grant}
use huddle.Fault.{Exception, FaultCode, Result, ok, err}
use huddle.Service.{M, pure, throw, ◌>>=◌, ◌>>◌, try_catch, throw_if, when}
use huddle.RoomsWorld
use huddle.RoomsWorld.{
  AuthUser, RoomRow, RejoinMetadata, TokenOptions, LivekitCall, create_livekit_room,
  mute_all_mics_except_host, set_mute_on_entry_flag, set_participant_muted, remove_participant,
  NewRoom, Rooms, World, Environment, or_throw, truthy, Service,
}

pub record HostJoin : Type 0 where
  pub room : String
  pub scheduled_start : Option ℕ
  pub identity : String
  pub token : String
  pub host_key : String
  pub mute_on_entry : Bool

pub record RoomSummary : Type 0 where
  pub room : String
  pub scheduled_start : Option ℕ
  pub host_key : String
  pub created_at : ℕ

abbrev pub to_summary : RoomRow → RoomSummary
to_summary r = record {
  room = r.slug;
  scheduled_start = r.scheduled_start;
  host_key = r.host_key;
  created_at = r.created_at;
}

-- A start that is given must be a date, and in the future.
abbrev pub bad_start : ℕ → Option (Option ℕ) → Bool
bad_start now none = false
bad_start now (some none) = true
bad_start now (some (some t)) = leb t now

abbrev pub start_of : Option (Option ℕ) → Option ℕ
start_of none = none
start_of (some t) = t

module _ (db : Rooms) (env : Environment) where
  unfoldable pub mint_host_join : RoomRow → AuthUser → Service db HostJoin
  mint_host_join room host = do
    let identity = env.fresh_identity host.name
    RoomsWorld.livekit_call db env (create_livekit_room room.slug)
    token ← RoomsWorld.mint db env (record {
      room = room.slug;
      identity = identity;
      name = host.name;
      host = true;
      image = host.image;
      account_user_id = some host.id;
      direct_rejoin = none;
    })
    muted ← RoomsWorld.get_mute_on_entry db env room.slug
    pure (record {
      room = room.slug;
      scheduled_start = room.scheduled_start;
      identity = identity;
      token = token;
      host_key = room.host_key;
      mute_on_entry = muted;
    })

  -- rooms.repo.ts `create`: one attempt for each room code drawn, five in the source.
  unfoldable pub allocate : String → Option ℕ → String → List String → Service db RoomRow
  allocate host_key start host_user_id [] w = throw Exception.failure w
  allocate host_key start host_user_id (code ∷ codes) w =
      let (inserted, rooms) =
        db.insert
          (record {
            slug = code;
            host_key = host_key;
            host_user_id = host_user_id;
            scheduled_start = start;
          })
          w.rooms in
      let w' = record w { rooms = rooms } in
      elim inserted [
        | ok room ↦ pure room w'
        | err Exception.unique_violation ↦ allocate host_key start host_user_id codes w'
        | err e ↦ throw e w'
      ]

  unfoldable pub create_room :
      List String → String → AuthUser → Option (Option ℕ) → Service db HostJoin
  create_room codes host_key host start = do
    now ← RoomsWorld.clock db env
    throw_if (bad_start now start) (Exception.bad_request FaultCode.validation)
    room ← allocate host_key (start_of start) host.id codes
    mint_host_join room host

  unfoldable pub host_join : String → AuthUser → Service db HostJoin
  host_join slug host = do
    room ← RoomsWorld.require_room db env slug
    throw_if (not (same room.host_user_id host.id)) (Exception.forbidden FaultCode.not_host)
    mint_host_join room host

  unfoldable pub list_mine : String → Service db (List RoomSummary)
  list_mine user_id w = (ok (map to_summary (db.upcoming user_id w.now w.rooms)), w)

  unfoldable pub get_public : String → Service db (String × Option ℕ)
  get_public slug = do
    room ← RoomsWorld.require_room db env slug
    pure (room.slug, room.scheduled_start)

  unfoldable pub mute : String → String → Bool → Service db (Unit {0})
  mute slug identity muted = do
    RoomsWorld.livekit_call db env (set_participant_muted slug identity muted)
    pure tt

  unfoldable pub set_mute_on_entry : String → Bool → Service db Bool
  set_mute_on_entry slug muted = do
    RoomsWorld.require_room db env slug
    RoomsWorld.livekit_call db env (set_mute_on_entry_flag slug muted)
    when muted (RoomsWorld.livekit_call db env (mute_all_mics_except_host slug))
    pure muted

  unfoldable pub remove : String → String → Service db (Unit {0})
  remove slug identity = do
    connected ← (λ w. or_throw (env.is_connected w.livekit slug identity) Exception.failure w)
    throw_if (not connected) (Exception.not_found FaultCode.not_participant)
    RoomsWorld.redis_call db env
        (λ now. RoomState.revoke_direct_rejoin_grant_by_identity now slug identity)
    RoomsWorld.livekit_call db env (remove_participant slug identity)
    pure tt

  finish_call : String → Option String → Service db (Unit {0})
  finish_call slug none = pure tt
  finish_call slug (some sid) = do
    RoomsWorld.redis_call db env (λ now. RoomState.clear_direct_rejoin_grants now slug sid)
    RoomsWorld.redis_call db env (λ now. ShareConsents.clear_recording_share_consents now slug sid)

  unfoldable pub on_room_finished : String → Option String → Service db (Unit {0})
  unfolding finish_call
  on_room_finished slug room_sid = do
    RoomsWorld.redis_call db env (λ now. RoomState.clear_knocks now slug)
    finish_call slug (truthy room_sid)

  valid_grant : String → RejoinMetadata → Option DirectRejoinGrant → Bool
  valid_grant room_sid metadata none = false
  valid_grant room_sid metadata (some g) =
      same g.grant_id metadata.grant_id && same g.room_sid room_sid

  unfoldable pub is_direct_rejoin_participant_valid :
      String → String → String → RejoinMetadata → Service db Bool
  unfolding valid_grant
  is_direct_rejoin_participant_valid slug room_sid identity metadata =
      if not (same metadata.room_sid room_sid) then pure false else (do
        grant ←
            RoomsWorld.redis_call db env
              (λ now. RoomState.get_direct_rejoin_grant_by_identity now slug identity)
        pure (valid_grant room_sid metadata grant))
