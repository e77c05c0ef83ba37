-- ===== src/ControlSessions.antt =====
-- The sessions of apps/api/src/rooms/remote-control.service.ts: an active grant until it ends, and
-- the reactions to LiveKit, the timer and the operator. The clock stands still during one method.
pub mod Deadlines
pub mod Leaving
use huddle.Prelude.{
  ℕ, ◌+◌, ◌-◌, String, Option, none, some, List, [], ◌∷◌, Bool, true, false, not, ◌&&◌, ◌||◌, min,
  if◌then◌else◌, is_some, same, leb, length, suc,
}
use huddle.Records.{PendingRequest, ActiveGrant, GrantStatus, BootstrapGrant}
use huddle.Act.{Act}
use huddle.ControlState
use huddle.ControlState.{request_ttl_ms, renewal_ms, is_session}
use huddle.ControlRepo
use huddle.ControlRepo.{Sessions, SessionRow, SessionStatus, is_requested}
use huddle.Fault.{Exception, Result, ok, err}
use huddle.Service.{M, pure, throw, ◌>>=◌, ◌>>◌, try_catch, finally, throw_if, when, each}
use huddle.ControlWorld.{
  SessionSummary, CallParticipant, LivekitCall, set_remote_control_state, mint_control_agent_token,
  Environment, World, not_allowed, not_found, in_progress, renewal_required, bootstrap_invalid,
  upstream, is_grant_expired, to_session_summary, or_throw,
}
use huddle.ControlSteps
use huddle.ControlSteps.{Service}
use huddle.ControlRequests.{is_not_found}

module _ (db : Sessions) (env : Environment) where
  abbrev redis {ℓ} : {A : Type ℓ} → (ℕ → Act A) → Service db A
  redis = ControlSteps.redis_call db env

  abbrev audit {ℓ} : {A : Type ℓ} → (db.Table → A × db.Table) → Service db A
  audit = ControlSteps.audit_call db env

  abbrev clock : Service db ℕ
  clock = ControlSteps.clock db env

  -- `setRemoteControlState`
  publish : ActiveGrant → Service db (Unit {0})
  publish grant =
      ControlSteps.livekit_call db env
        (set_remote_control_state grant.room (some (to_session_summary grant)))

  unfoldable pub expire_grant : ActiveGrant → Service db (Unit {0})
  expire_grant grant = do
    now ← clock
    ControlSteps.end_grant db env grant SessionStatus.expired "renewal_timeout" now

  -- The grant that a bootstrap code may be redeemed for.
  live_grant : String → Option ActiveGrant → Service db ActiveGrant
  live_grant session_id none = throw bootstrap_invalid
  live_grant session_id (some grant) = do
    now ← clock
    if not (same grant.session_id session_id)
        then throw bootstrap_invalid
        else (if is_grant_expired grant now
            then (do expire_grant grant; throw bootstrap_invalid)
            else pure grant)

  mint : ActiveGrant → Service db (String × SessionSummary)
  mint grant w =
      (do
        ControlSteps.livekit_call db env
            (mint_control_agent_token grant.room grant.session_id grant.agent_identity)
        pure (env.token w.livekit, to_session_summary grant))
        w

  unfoldable pub redeem_helper_token :
      String → String → String → ℕ → Service db (String × SessionSummary)
  unfolding live_grant mint
  redeem_helper_token room session_id code version = do
    ControlSteps.require_protocol_version db env version
    bootstrap ← redis (λ now. ControlState.consume_bootstrap now env.digest room session_id code)
    or_throw bootstrap bootstrap_invalid
    found ← redis (λ now. ControlState.get_active now room)
    grant ← live_grant session_id found
    try_catch (mint grant) (λ e. do
      now ← clock
      ControlSteps.end_grant db env grant SessionStatus.failed "helper_token_failed" now
      throw upstream)

  unfoldable pub reissue_bootstrap :
      String → String → String → CallParticipant → Service db (String × ℕ)
  reissue_bootstrap code room session_id participant = do
    grant ← ControlSteps.require_active db env room session_id
    throw_if (not (same participant.identity grant.sharer_identity)) not_allowed
    now ← clock
    if is_grant_expired grant now then (do expire_grant grant; throw renewal_required) else (do
      throw_if grant.agent_connected in_progress
      helper ← redis (λ now. ControlState.issue_bootstrap now env.digest code grant)
      or_throw helper Exception.failure)

  unfoldable pub stop : String → String → CallParticipant → Service db ℕ
  stop room session_id participant = do
    grant ← ControlSteps.require_active db env room session_id
    throw_if
        (not (same participant.identity grant.sharer_identity)
          && not (same participant.identity grant.controller_identity))
        not_allowed
    now ← clock
    ControlSteps.end_grant db env grant
        (if is_grant_expired grant now then SessionStatus.expired else SessionStatus.ended)
        (if is_grant_expired grant now
          then "renewal_timeout"
          else (if same participant.identity grant.sharer_identity
              then "sharer_stopped"
              else "controller_stopped"))
        now
    pure now

  -- The `try` of `renew`, with its flag `auditUpdated` beside the exception.
  save_renewal : ActiveGrant → Service db (Bool × Result (Unit {0}))
  save_renewal renewed = do
    updated ← audit (ControlRepo.update_renewal db renewed.session_id renewed.renewal_due_at)
    if not updated
        then pure (false, err not_found)
        else (λ w. let (published, w') = publish renewed w in (ok (true, published), w'))

  finish_renewal : ActiveGrant → ActiveGrant → Bool → Result (Unit {0}) → Service db ℕ
  finish_renewal grant renewed updated (ok u) = pure renewed.renewal_due_at
  finish_renewal grant renewed updated (err e) = do
    redis (λ now. ControlState.update_active now grant)
    when updated (audit (ControlRepo.update_renewal db grant.session_id grant.renewal_due_at))
    throw (if is_not_found e then e else upstream)

  abbrev pub renewal_of : ActiveGrant → ℕ → ActiveGrant
  renewal_of grant now = record grant {
    renewal_due_at = min (now + renewal_ms) grant.authorization_expires_at;
  }

  unfoldable pub renew : String → String → CallParticipant → Service db ℕ
  unfolding save_renewal finish_renewal publish
  renew room session_id participant = do
    grant ← ControlSteps.require_active db env room session_id
    throw_if (not (same participant.identity grant.sharer_identity)) not_allowed
    now ← clock
    if is_grant_expired grant now then (do expire_grant grant; throw renewal_required) else (do
      let renewed = renewal_of grant now
      stored ← redis (λ now. ControlState.update_active now renewed)
      throw_if (not stored) not_found
      (updated, outcome) ← save_renewal renewed
      finish_renewal grant renewed updated outcome)

  agent_joined : ActiveGrant → Service db (Unit {0})
  unfolding publish
  agent_joined grant = do
    now ← clock
    if is_grant_expired grant now then expire_grant grant else (do
      let connected = record grant { status = GrantStatus.active; agent_connected = true }
      stored ← redis (λ now. ControlState.update_active now connected)
      when stored (
          try_catch (publish connected) (λ e.
            ControlSteps.end_grant db env connected SessionStatus.failed "agent_metadata_failed"
              now)))

  joined : String → Option ActiveGrant → Service db (Unit {0})
  unfolding agent_joined
  joined identity none = pure tt
  joined identity (some grant) = when (same grant.agent_identity identity) (agent_joined grant)

  unfoldable pub on_participant_joined : String → String → Service db (Unit {0})
  unfolding joined
  on_participant_joined room identity = do
    grant ← redis (λ now. ControlState.get_active now room)
    joined identity grant

  abbrev pub leave_reason : ActiveGrant → String → Option String
  leave_reason grant identity =
      if same identity grant.sharer_identity
      then some "sharer_disconnected"
      else (if same identity grant.controller_identity
          then some "controller_disconnected"
          else (if same identity grant.agent_identity then some "agent_disconnected" else none))

  end_by : ActiveGrant → Option String → Service db (Unit {0})
  end_by grant none = pure tt
  end_by grant (some reason) = do
    now ← clock
    ControlSteps.end_grant db env grant SessionStatus.ended reason now

  pending_left : String → String → Option PendingRequest → Service db (Unit {0})
  pending_left room identity none = pure tt
  pending_left room identity (some pending) =
      when (same identity pending.sharer_identity || same identity pending.controller_identity) (do
        now ← clock
        redis (λ now. ControlState.release_pending now room pending.request_id)
        audit (ControlRepo.fail_request db pending.request_id "participant_disconnected" now))

  left : String → String → Option ActiveGrant → Service db (Unit {0})
  unfolding end_by pending_left
  left room identity (some grant) = end_by grant (leave_reason grant identity)
  left room identity none = do
    pending ← redis (λ now. ControlState.get_pending_for_room now room)
    pending_left room identity pending

  unfoldable pub on_participant_left : String → String → Service db (Unit {0})
  unfolding left
  on_participant_left room identity = do
    grant ← redis (λ now. ControlState.get_active now room)
    left room identity grant
