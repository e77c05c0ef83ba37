-- ===== src/ControlSteps.antt =====
-- The private methods of apps/api/src/rooms/remote-control.service.ts, and its calls of the state,
-- the audit rows and LiveKit.
pub mod Ending
pub mod Lookup
use huddle.Prelude.{
  ℕ, ◌+◌, String, Option, none, some, List, [], ◌∷◌, ◌++◌, Bool, true, false, not, if◌then◌else◌,
  is_some, same, ◌==◌,
}
use huddle.Records.{PendingRequest, ActiveGrant}
use huddle.Act.{Act}
use huddle.ControlState
use huddle.ControlRepo
use huddle.ControlRepo.{Sessions, SessionRow, SessionStatus}
use huddle.Fault.{Exception, Result, ok, err}
use huddle.Service.{M, pure, throw, ◌>>=◌, ◌>>◌, throw_if, when}
use huddle.ControlWorld.{
  SessionSummary, ConnectedParticipant, RoomRow, LivekitCall, set_remote_control_state,
  disconnect_control_agent, Environment, World, not_found, protocol_unsupported, upstream,
  room_not_found, is_request_expired, is_row, is_some_requested, or_throw,
}

-- The Promise of LiveKit is rejected or fulfilled; the call is on record either way.
abbrev pub fulfilled : Bool → Result (Unit {0})
fulfilled true = ok tt
fulfilled false = err Exception.failure

abbrev pub Service {ℓ} : Sessions → Type ℓ → Type ℓ
Service db A = M (World db.Table) A

module _ (db : Sessions) (env : Environment) where
  open db use {Table}

  abbrev pub redis_call {ℓ} : {A : Type ℓ} → (ℕ → Act A) → Service db A
  redis_call act w = let (a, r) = act w.now w.redis in (ok a, record w { redis = r })

  abbrev pub audit_call {ℓ} : {A : Type ℓ} → (Table → A × Table) → Service db A
  audit_call act w = let (a, t) = act w.audit in (ok a, record w { audit = t })

  abbrev pub clock : Service db ℕ
  clock w = (ok w.now, w)

  abbrev pub livekit_call : LivekitCall → Service db (Unit {0})
  livekit_call c w =
      (fulfilled (env.accepts w.livekit c), record w { livekit = w.livekit ++ c ∷ [] })

  unfoldable pub connected_participant : String → String → Service db (Option ConnectedParticipant)
  connected_participant room identity w =
      or_throw (env.connected w.livekit room identity) upstream w

  unfoldable pub presentation_active : String → Service db Bool
  presentation_active room w = or_throw (env.screen_share w.livekit room) upstream w

  unfoldable pub require_room : String → Service db RoomRow
  require_room slug = or_throw (env.find_room slug) room_not_found

  unfoldable pub require_protocol_version : ℕ → Service db (Unit {0})
  require_protocol_version version = throw_if (not (version == 2)) protocol_unsupported

  -- `Promise.allSettled`: a rejection is only logged.
  unfoldable pub settled : LivekitCall → Service db (Unit {0})
  settled c w = (ok tt, (livekit_call c w).1)

  disconnect : String → Option String → Service db (Unit {0})
  disconnect room none = pure tt
  disconnect room (some identity) =
      when (not (same identity "")) (settled (disconnect_control_agent room identity))

  unfoldable pub clear_livekit_state : String → Option String → Service db (Unit {0})
  unfolding disconnect
  clear_livekit_state room agent_identity = do
    settled (set_remote_control_state room none)
    disconnect room agent_identity

  unfoldable pub end_grant : ActiveGrant → SessionStatus → String → ℕ → Service db (Unit {0})
  end_grant grant status reason ended_at = do
    redis_call (λ now. ControlState.revoke_bootstrap now grant)
    redis_call (λ now. ControlState.clear_active now grant.room grant.session_id)
    clear_livekit_state grant.room (some grant.agent_identity)
    audit_call (ControlRepo.end_active db grant.session_id status reason ended_at)
    pure tt

  unfoldable pub end_audit_fallback :
      SessionRow → String → SessionStatus → String → ℕ → Service db (Unit {0})
  end_audit_fallback row room status reason ended_at = do
    redis_call (λ now. ControlState.clear_active now room row.id)
    clear_livekit_state room row.agent_identity
    audit_call (ControlRepo.end_active db row.id status reason ended_at)
    pure tt

  unfoldable pub expire_pending : String → String → Service db (Unit {0})
  expire_pending room request_id = do
    redis_call (λ now. ControlState.release_pending now room request_id)
    audit ← audit_call (λ t. (ControlRepo.find_by_id db request_id t, t))
    now ← clock
    when (is_some_requested audit) (audit_call (ControlRepo.expire_request db request_id now))

  fresh_or_expire : String → String → Option PendingRequest → Service db PendingRequest
  fresh_or_expire room request_id none = do expire_pending room request_id; throw not_found
  fresh_or_expire room request_id (some p) = do
    now ← clock
    if is_request_expired p now
        then (do expire_pending room request_id; throw not_found)
        else pure p

  unfoldable pub require_pending : String → String → Service db PendingRequest
  unfolding fresh_or_expire
  require_pending room request_id = do
    pending ← redis_call (λ now. ControlState.get_pending now room request_id)
    fresh_or_expire room request_id pending

  -- The stale audit row of a room is closed if it is of the session that is asked for.
  close_stale : String → String → Option SessionRow → Service db (Unit {0})
  close_stale room session_id none = pure tt
  close_stale room session_id (some row) = do
    now ← clock
    when (same row.id session_id)
        (end_audit_fallback row room SessionStatus.failed "grant_missing" now)

  fall_back : String → String → Option RoomRow → Service db (Unit {0})
  unfolding close_stale
  fall_back room session_id none = pure tt
  fall_back room session_id (some row) = do
    active ← audit_call (λ t. (ControlRepo.find_active_by_room db row.id t, t))
    close_stale room session_id active

  session_or_close : String → String → Option ActiveGrant → Service db ActiveGrant
  unfolding fall_back
  session_or_close room session_id none = do
    fall_back room session_id (env.find_room room)
    throw not_found
  session_or_close room session_id (some g) =
      if same g.session_id session_id
      then pure g
      else (do fall_back room session_id (env.find_room room); throw not_found)

  unfoldable pub require_active : String → String → Service db ActiveGrant
  unfolding session_or_close
  require_active room session_id = do
    grant ← redis_call (λ now. ControlState.get_active now room)
    session_or_close room session_id grant
