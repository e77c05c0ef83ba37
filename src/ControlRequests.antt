-- ===== src/ControlRequests.antt =====
-- The requests of apps/api/src/rooms/remote-control.service.ts: asking for control, and what becomes
-- of the request. Random codes are arguments. The clock stands still during one method.
pub mod Consent
use huddle.Prelude.{
  ℕ, ◌+◌, ◌*◌, String, Option, none, some, List, [], ◌∷◌, Bool, true, false, not, ◌&&◌, ◌||◌, min,
  if◌then◌else◌, is_some, same, leb, length, suc, ◌-◌,
}
use Prim.Native.String
use huddle.Records.{PendingRequest, ActiveGrant, GrantStatus}
use huddle.Act.{Act}
use huddle.ControlState
use huddle.ControlState.{request_ttl_ms, renewal_ms}
use huddle.ControlRepo
use huddle.ControlRepo.{Sessions, SessionRow, SessionStatus, RequestParams}
use huddle.Fault.{Exception, Result, ok, err}
use huddle.Service.{M, pure, throw, ◌>>=◌, ◌>>◌, try_catch, finally, throw_if, when, each}
use huddle.ControlWorld.{
  RequestSummary, SessionSummary, CallParticipant, ConnectedParticipant, RoomRow, LivekitCall,
  set_remote_control_state, mint_control_agent_token, Environment, World, not_allowed, not_found,
  in_progress, present_active, renewal_required, bootstrap_invalid, upstream, is_request_expired,
  is_grant_expired, to_request_summary, to_session_summary, or_hour, or_throw,
}
use huddle.ControlSteps
use huddle.ControlSteps.{Service}

-- Both are connected, and neither is a Control Agent.
abbrev pub both :
    Option ConnectedParticipant
    → Option ConnectedParticipant
    → Option (ConnectedParticipant × ConnectedParticipant)
both (some a) (some b) = some (a, b)
both _ _ = none

abbrev pub is_unique_violation : Exception → Bool
is_unique_violation Exception.unique_violation = true
is_unique_violation _ = false

abbrev pub is_not_found : Exception → Bool
is_not_found (Exception.not_found c) = true
is_not_found _ = false

-- `NotFoundException`, `ConflictException` or `ForbiddenException`.
abbrev pub is_domain : Exception → Bool
is_domain (Exception.not_found c) = true
is_domain (Exception.conflict c) = true
is_domain (Exception.forbidden c) = true
is_domain _ = false

module _ (db : Sessions) (env : Environment) where
  abbrev redis {ℓ} : {A : Type ℓ} → (ℕ → Act A) → Service db A
  redis = ControlSteps.redis_call db env

  abbrev audit {ℓ} : {A : Type ℓ} → (db.Table → A × db.Table) → Service db A
  audit = ControlSteps.audit_call db env

  abbrev clock : Service db ℕ
  clock = ControlSteps.clock db env

  -- What follows the attempt to take the lock; `none` is a rejected write.
  after_create : PendingRequest → ℕ → Option Bool → Service db RequestSummary
  after_create pending now none = do
    audit (ControlRepo.fail_request db pending.request_id "redis_unavailable" now)
    throw upstream
  after_create pending now (some false) = do
    audit (ControlRepo.fail_request db pending.request_id "room_in_progress" now)
    throw in_progress
  after_create pending now (some true) = pure (to_request_summary pending now)

  -- The request itself, once everything is checked.
  unfoldable pub ask :
      String
      → RoomRow
      → CallParticipant
      → ConnectedParticipant
      → ConnectedParticipant
      → Service db RequestSummary
  unfolding after_create
  ask slug room controller who sharer = do
    now ← clock
    row ← audit (
        ControlRepo.create_request db now (record {
          room_id = room.id;
          sharer_identity = sharer.identity;
          sharer_name = sharer.name;
          controller_identity = who.identity;
          controller_name = who.name;
        }))
    let pending : PendingRequest = record {
      request_id = row.id;
      room = slug;
      sharer_identity = sharer.identity;
      sharer_name = sharer.name;
      controller_identity = who.identity;
      controller_name = who.name;
      requested_at = row.created_at;
      expires_at = row.created_at + request_ttl_ms;
      controller_token_expires_at = or_hour controller.token_expires_at now;
    }
    acquired ← redis (λ now. ControlState.create_pending now env.pending_write_fails pending)
    after_create pending now acquired

  unfoldable pub request_control : String → CallParticipant → String → ℕ → Service db RequestSummary
  request_control slug controller sharer_identity version = do
    ControlSteps.require_protocol_version db env version
    room ← ControlSteps.require_room db env slug
    throw_if (same controller.identity sharer_identity) not_allowed
    owned ← redis (λ now. ControlState.has_owner now slug)
    throw_if owned in_progress
    connected_controller ← ControlSteps.connected_participant db env slug controller.identity
    connected_sharer ← ControlSteps.connected_participant db env slug sharer_identity
    presenting ← ControlSteps.presentation_active db env slug
    (who, sharer) ← or_throw (both connected_controller connected_sharer) not_allowed
    throw_if (who.is_control_agent || sharer.is_control_agent) not_allowed
    throw_if presenting present_active
    ask slug room controller who sharer

  unfoldable pub get_request : String → String → CallParticipant → Service db RequestSummary
  get_request room request_id participant = do
    pending ← ControlSteps.require_pending db env room request_id
    throw_if
        (not (same participant.identity pending.sharer_identity)
          && not (same participant.identity pending.controller_identity))
        not_allowed
    now ← clock
    pure (to_request_summary pending now)

  pending_request :
      String → CallParticipant → Option PendingRequest → Service db (Option RequestSummary)
  pending_request room participant none = pure none
  pending_request room participant (some pending) = do
    now ← clock
    if is_request_expired pending now
        then (do ControlSteps.expire_pending db env room pending.request_id; pure none)
        else (if not (same participant.identity pending.sharer_identity)
            then pure none
            else pure (some (to_request_summary pending now)))

  unfoldable pub get_pending_request : String → CallParticipant → Service db (Option RequestSummary)
  unfolding pending_request
  get_pending_request room participant = do
    pending ← redis (λ now. ControlState.get_pending_for_room now room)
    pending_request room participant pending

  -- The grant that an approval makes of a consumed request.
  abbrev pub grant_of : String → RoomRow → PendingRequest → ℕ → ℕ → ActiveGrant
  grant_of slug room consumed now authorization = record {
    session_id = consumed.request_id;
    room = slug;
    room_id = room.id;
    sharer_identity = consumed.sharer_identity;
    sharer_name = consumed.sharer_name;
    controller_identity = consumed.controller_identity;
    controller_name = consumed.controller_name;
    agent_identity = String.◌++◌ "control-agent:" consumed.request_id;
    status = GrantStatus.awaiting_agent;
    agent_connected = false;
    started_at = now;
    renewal_due_at = min (now + renewal_ms) authorization;
    authorization_expires_at = authorization;
    bootstrap_digest = none;
  }

  -- The audit row did not change: the grant goes, and the request counts as resolved.
  or_resolved : ActiveGrant → Option SessionRow → Service db (Unit {0})
  or_resolved grant none = do
    redis (λ now. ControlState.clear_active now grant.room grant.session_id)
    throw not_found
  or_resolved grant (some row) = pure tt

  unfoldable pub start : String → ActiveGrant → Service db (SessionSummary × String × ℕ)
  unfolding or_resolved
  start code grant = do
    row ← audit (
        ControlRepo.activate db grant.session_id grant.agent_identity grant.started_at
          grant.renewal_due_at)
    or_resolved grant row
    ControlSteps.livekit_call db env
        (set_remote_control_state grant.room (some (to_session_summary grant)))
    helper ← redis (λ now. ControlState.issue_bootstrap now env.digest code grant)
    (shown, expires_at) ← or_throw helper Exception.failure
    pure (to_session_summary grant, shown, expires_at)

  abbrev pub start_error : Exception → Exception
  start_error e =
      if is_domain e then e else (if is_unique_violation e then in_progress else upstream)

  unfoldable pub start_failed : ActiveGrant → Exception → Service db (SessionSummary × String × ℕ)
  start_failed grant e = do
    now ← clock
    ControlSteps.end_grant db env grant SessionStatus.failed "startup_failed" now
    throw (start_error e)

  abandon : String → String → String → Exception → Service db (SessionSummary × String × ℕ)
  abandon slug request_id reason e = do
    now ← clock
    audit (ControlRepo.fail_request db request_id reason now)
    redis (λ now. ControlState.release_pending now slug request_id)
    throw e

  unfoldable pub approve_consumed :
      String
      → RoomRow
      → String
      → CallParticipant
      → PendingRequest
      → Service db (SessionSummary × String × ℕ)
  unfolding abandon
  approve_consumed code room slug sharer consumed = do
    now ← clock
    let authorization =
        min consumed.controller_token_expires_at (or_hour sharer.token_expires_at now)
    let grant = grant_of slug room consumed now authorization
    if leb authorization now
        then abandon slug consumed.request_id "participant_authorization_expired" not_allowed
        else (do
          activated ← redis (λ now. ControlState.activate now grant)
          if not activated
              then abandon slug consumed.request_id "room_in_progress" in_progress
              else try_catch (start code grant) (start_failed grant))

  unfoldable pub approve :
      String → String → String → CallParticipant → ℕ → Service db (SessionSummary × String × ℕ)
  approve code slug request_id participant version = do
    ControlSteps.require_protocol_version db env version
    room ← ControlSteps.require_room db env slug
    pending ← ControlSteps.require_pending db env slug request_id
    throw_if (not (same participant.identity pending.sharer_identity)) not_allowed
    connected_controller ←
        ControlSteps.connected_participant db env slug pending.controller_identity
    connected_sharer ← ControlSteps.connected_participant db env slug pending.sharer_identity
    presenting ← ControlSteps.presentation_active db env slug
    (controller, sharer) ← or_throw (both connected_controller connected_sharer) not_allowed
    throw_if (controller.is_control_agent || sharer.is_control_agent) not_allowed
    throw_if presenting present_active
    found ← redis (λ now. ControlState.consume_pending now slug request_id)
    consumed ← or_throw found not_found
    approve_consumed code room slug participant consumed

  -- The body that `deny` and `withdraw` share: the request is consumed, its audit row is closed,
  -- and whatever happens then, the request and its lock are given up.
  resolve : String → String → (ℕ → db.Table → Bool × db.Table) → Service db (Unit {0})
  resolve room request_id close = do
    found ← redis (λ now. ControlState.consume_pending now room request_id)
    or_throw found not_found
    finally (do now ← clock; closed ← audit (close now); throw_if (not closed) not_found)
        (redis (λ now. ControlState.release_pending now room request_id))

  unfoldable pub deny : String → String → CallParticipant → Service db (Unit {0})
  unfolding resolve
  deny room request_id participant = do
    pending ← ControlSteps.require_pending db env room request_id
    throw_if (not (same participant.identity pending.sharer_identity)) not_allowed
    resolve room request_id (ControlRepo.deny db request_id)

  unfoldable pub withdraw : String → String → CallParticipant → Service db (Unit {0})
  unfolding resolve
  withdraw room request_id participant = do
    pending ← ControlSteps.require_pending db env room request_id
    throw_if (not (same participant.identity pending.controller_identity)) not_allowed
    resolve room request_id (ControlRepo.withdraw db request_id)
