-- ===== src/Admission.antt =====
-- The waiting room of apps/api/src/rooms/rooms.service.ts: knocks, admission and direct rejoining.
-- A room's admissions run one after the other, as the queue of `admit` makes them do, so `admit`
-- is `admit_once`. Ids of `randomUUID()` are arguments. The clock stands still during one method.
pub mod Guests
use huddle.Prelude.{
  ℕ, String, Option, none, some, List, [], ◌∷◌, map, Bool, true, false, not, ◌&&◌, leb, same,
  if◌then◌else◌,
}
use huddle.Records.{Knock, KnockStatus, DirectRejoinGrant}
use huddle.RoomState
use huddle.RoomState.{is_pending, is_grant}
use huddle.Fault.{Exception, FaultCode, Result, ok, err}
use huddle.Service.{M, pure, throw, ◌>>=◌, ◌>>◌, try_catch, throw_if, when}
use huddle.RoomsWorld
use huddle.RoomsWorld.{
  AuthUser, RoomRow, RejoinMetadata, TokenOptions, LivekitCall, create_livekit_room,
  mute_all_mics_except_host, set_mute_on_entry_flag, set_participant_muted, remove_participant,
  NewRoom, Rooms, World, Environment, or_throw, truthy, Service,
}

pub record GuestJoin : Type 0 where
  pub room : String
  pub identity : String
  pub token : String
  pub mute_on_entry : Bool

pub data StatusReply : Type 0 where
  waiting : KnockStatus → StatusReply
  let_in : Option String → Option String → Bool → StatusReply

pub record KnockSummary : Type 0 where
  pub knock_id : String
  pub name : String
  pub image : Option String
  pub requested_at : ℕ

abbrev pub rejoin_not_allowed : Exception
rejoin_not_allowed = Exception.forbidden FaultCode.direct_rejoin_not_allowed

abbrev pub knock_summary : Knock → KnockSummary
knock_summary k = record {
  knock_id = k.knock_id;
  name = k.name;
  image = k.image;
  requested_at = k.requested_at;
}

abbrev pub is_sid : String → Option String → Bool
is_sid sid none = false
is_sid sid (some s) = same s sid

-- A grant is reused while its LiveKit room instance lives.
abbrev pub reusable : String → Option DirectRejoinGrant → Option DirectRejoinGrant
reusable sid none = none
reusable sid (some g) = if same g.room_sid sid then some g else none

abbrev pub metadata_of : DirectRejoinGrant → RejoinMetadata
metadata_of g = record { grant_id = g.grant_id; room_sid = g.room_sid }

-- What a guest's token is minted for.
abbrev pub guest_options :
    String → String → String → Option String → Option String → Option RejoinMetadata → TokenOptions
guest_options room identity name image account rejoin = record {
  room = room;
  identity = identity;
  name = name;
  host = false;
  image = image;
  account_user_id = account;
  direct_rejoin = rejoin;
}

module _ (db : Rooms) (env : Environment) where
  knock_name : Option String → Option String
  knock_name none = none
  knock_name (some name) = truthy (some (env.trim name))

  unfoldable pub knock :
      String → String → Option String → Option String → Option String → Service db String
  unfolding knock_name
  knock id slug guest_name guest_image guest_user_id = do
    RoomsWorld.require_room db env slug
    name ← or_throw (knock_name guest_name) (Exception.bad_request FaultCode.name_required)
    knock ←
        RoomsWorld.redis_call db env
          (λ now. RoomState.add_knock now id slug name guest_image guest_user_id)
    pure knock.knock_id

  eligible : String → Option DirectRejoinGrant → Service db Bool
  eligible slug none = pure false
  eligible slug (some grant) = do
    sid ← RoomsWorld.get_room_sid db env slug
    if is_sid grant.room_sid sid then pure true else (do
      RoomsWorld.redis_call db env (λ now. RoomState.remove_direct_rejoin_grant now grant)
      pure false)

  unfoldable pub direct_rejoin_eligibility : String → AuthUser → Service db Bool
  unfolding eligible
  direct_rejoin_eligibility slug guest = do
    RoomsWorld.require_room db env slug
    grant ←
        RoomsWorld.redis_call db env (λ now. RoomState.get_direct_rejoin_grant now slug guest.id)
    eligible slug grant

  unfoldable pub direct_rejoin : String → AuthUser → Service db GuestJoin
  direct_rejoin slug guest = do
    RoomsWorld.require_room db env slug
    found ←
        RoomsWorld.redis_call db env (λ now. RoomState.get_direct_rejoin_grant now slug guest.id)
    grant ← or_throw found rejoin_not_allowed
    sid ← RoomsWorld.get_room_sid db env slug
    when (not (is_sid grant.room_sid sid)) (do
      RoomsWorld.redis_call db env (λ now. RoomState.remove_direct_rejoin_grant now grant)
      throw {A = Unit {0}} rejoin_not_allowed)
    token ← RoomsWorld.mint db env (
        guest_options slug grant.identity guest.name guest.image (some guest.id)
          (some (metadata_of grant)))
    latest_grant ←
        RoomsWorld.redis_call db env (λ now. RoomState.get_direct_rejoin_grant now slug guest.id)
    latest_sid ← RoomsWorld.get_room_sid db env slug
    throw_if (not (is_grant grant.grant_id latest_grant && is_sid grant.room_sid latest_sid))
        rejoin_not_allowed
    muted ← RoomsWorld.get_mute_on_entry db env slug
    pure (record { room = slug; identity = grant.identity; token = token; mute_on_entry = muted })

  unfoldable pub cancel_knock : String → String → Service db (Unit {0})
  cancel_knock slug knock_id =
      RoomsWorld.redis_call db env (λ now. RoomState.remove_knock now slug knock_id)

  unfoldable pub require_knock : String → String → Service db Knock
  require_knock slug knock_id = do
    knock ← RoomsWorld.redis_call db env (λ now. RoomState.get_knock now slug knock_id)
    or_throw knock (Exception.not_found FaultCode.knock_not_found)

  status_reply : String → Knock → KnockStatus → Service db StatusReply
  status_reply slug knock KnockStatus.admitted = do
    muted ← RoomsWorld.get_mute_on_entry db env slug
    pure (let_in knock.token knock.identity muted)
  status_reply slug knock status = pure (waiting status)

  unfoldable pub knock_status : String → String → Service db StatusReply
  unfolding status_reply
  knock_status slug knock_id = do
    knock ← require_knock slug knock_id
    status_reply slug knock knock.status

  unfoldable pub list_knocks : String → Service db (List KnockSummary)
  list_knocks slug = do
    knocks ← RoomsWorld.redis_call db env (λ now. RoomState.list_pending_knocks now slug)
    pure (map knock_summary knocks)

  or_create : String → Option String → Service db String
  or_create slug none = RoomsWorld.livekit_call db env (create_livekit_room slug)
  or_create slug (some sid) = pure sid

  unfoldable pub ensure_livekit_room : String → Service db String
  unfolding or_create
  ensure_livekit_room slug = do sid ← RoomsWorld.get_room_sid db env slug; or_create slug sid

  unfoldable pub resolve : Knock → KnockStatus → Option (String × String) → Service db KnockStatus
  resolve knock status grant = do
    resolved ← RoomsWorld.redis_call db env (λ now. RoomState.resolve_knock now knock status grant)
    pure resolved.status

  -- Admission with a token for an identity, with or without a grant.
  admit_as : Knock → String → Option RejoinMetadata → Service db KnockStatus
  admit_as knock identity rejoin = do
    token ←
        RoomsWorld.mint db env
          (guest_options knock.room identity knock.name knock.image knock.user_id rejoin)
    resolve knock KnockStatus.admitted (some (identity, token))

  -- A token for a new grant; the grant goes if no token can be minted.
  mint_granted : Knock → DirectRejoinGrant → Service db String
  mint_granted knock grant =
      try_catch
        (RoomsWorld.mint db env (
          guest_options knock.room grant.identity knock.name knock.image knock.user_id
            (some (metadata_of grant))))
        (λ e. do
          RoomsWorld.redis_call db env (λ now. RoomState.remove_direct_rejoin_grant now grant)
          throw e)

  admit_account :
      String → Knock → String → String → Option DirectRejoinGrant → Service db KnockStatus
  unfolding admit_as mint_granted
  admit_account grant_id knock user_id sid (some grant) =
      admit_as knock grant.identity (some (metadata_of grant))
  admit_account grant_id knock user_id sid none =
      if same sid "" then admit_as knock (env.fresh_identity knock.name) none else (do
        grant ← RoomsWorld.redis_call db env (λ now.
            RoomState.add_direct_rejoin_grant now grant_id knock.room sid user_id
              (env.fresh_identity knock.name))
        token ← mint_granted knock grant
        resolve knock KnockStatus.admitted (some (grant.identity, token)))

  admit_pending : String → Knock → Option String → Service db KnockStatus
  unfolding admit_account
  admit_pending grant_id knock none = admit_as knock (env.fresh_identity knock.name) none
  admit_pending grant_id knock (some user_id) = do
    sid ← ensure_livekit_room knock.room
    existing ←
        RoomsWorld.redis_call db env
          (λ now. RoomState.get_direct_rejoin_grant now knock.room user_id)
    admit_account grant_id knock user_id sid (reusable sid existing)

  -- `grant_id` is the id of the Direct Rejoin Grant, if one is made.
  unfoldable pub admit_once : String → String → String → Service db KnockStatus
  unfolding admit_pending
  admit_once grant_id slug knock_id = do
    knock ← require_knock slug knock_id
    if is_pending knock.status
        then admit_pending grant_id knock (truthy knock.user_id)
        else pure knock.status

  unfoldable pub deny : String → String → Service db KnockStatus
  deny slug knock_id = do
    knock ← require_knock slug knock_id
    if is_pending knock.status then resolve knock KnockStatus.denied none else pure knock.status
