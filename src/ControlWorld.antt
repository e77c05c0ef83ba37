-- ===== src/ControlWorld.antt =====
-- The world of apps/api/src/rooms/remote-control.service.ts: its data, the state that it works on, and
-- what answers it from outside. Messages of faults and log lines are left out.
use huddle.Prelude.{ℕ, ◌+◌, ◌-◌, ◌*◌, String, Option, none, some, List, Bool, false, min, same, leb}
use huddle.Records.{PendingRequest, ActiveGrant, GrantStatus}
use huddle.Redis.{Store}
use huddle.ControlState.{request_ttl_ms}
use huddle.ControlRepo.{SessionRow, is_requested}
use huddle.Fault.{Exception, FaultCode}
use huddle.Service.{M, pure, throw}

pub record RequestSummary : Type 0 where
  pub request_id : String
  pub room : String
  pub sharer_identity : String
  pub sharer_name : String
  pub controller_identity : String
  pub controller_name : String
  pub requested_at : ℕ
  pub expires_at : ℕ
  pub expires_in_ms : ℕ

pub record SessionSummary : Type 0 where
  pub session_id : String
  pub status : GrantStatus
  pub sharer_identity : String
  pub sharer_name : String
  pub controller_identity : String
  pub controller_name : String
  pub agent_identity : String
  pub agent_connected : Bool
  pub renewal_due_at : ℕ

-- participant.guard.ts: who makes the request.
pub record CallParticipant : Type 0 where
  pub identity : String
  pub name : String
  pub token_expires_at : Option ℕ

-- livekit.service.ts: a participant that LiveKit shows in a room.
pub record ConnectedParticipant : Type 0 where
  pub identity : String
  pub name : String
  pub is_control_agent : Bool

pub record RoomRow : Type 0 where
  pub id : String
  pub slug : String

-- What the service asks LiveKit to change.
pub data LivekitCall : Type 0 where
  set_remote_control_state : String → Option SessionSummary → LivekitCall
  disconnect_control_agent : String → String → LivekitCall
  mint_control_agent_token : String → String → String → LivekitCall

-- The answers of what is outside: LiveKit, which may answer by all that it was asked to change
-- before, and rejects by `none` or `false`; the database's rooms; node:crypto.
pub record Environment : Type 0 where
  pub connected : List LivekitCall → String → String → Option (Option ConnectedParticipant)
  pub screen_share : List LivekitCall → String → Option Bool
  pub accepts : List LivekitCall → LivekitCall → Bool
  pub token : List LivekitCall → String
  pub active_rooms : List String
  pub find_room : String → Option RoomRow
  pub digest : String → String
  pub pending_write_fails : Bool

pub record World (Table : Type 0) : Type 0 where
  pub now : ℕ
  pub redis : Store
  pub audit : Table
  pub livekit : List LivekitCall
  pub reconciling : Bool

abbrev pub not_allowed : Exception
not_allowed = Exception.forbidden FaultCode.remote_control_not_allowed

abbrev pub not_found : Exception
not_found = Exception.not_found FaultCode.remote_control_not_found

abbrev pub in_progress : Exception
in_progress = Exception.conflict FaultCode.remote_control_in_progress

abbrev pub present_active : Exception
present_active = Exception.conflict FaultCode.remote_control_present_active

abbrev pub renewal_required : Exception
renewal_required = Exception.conflict FaultCode.remote_control_renewal_required

abbrev pub protocol_unsupported : Exception
protocol_unsupported = Exception.conflict FaultCode.remote_control_protocol_unsupported

abbrev pub bootstrap_invalid : Exception
bootstrap_invalid = Exception.unauthorized FaultCode.remote_control_bootstrap_invalid

abbrev pub upstream : Exception
upstream = Exception.service_unavailable FaultCode.upstream_unavailable

abbrev pub room_not_found : Exception
room_not_found = Exception.not_found FaultCode.room_not_found

-- An ISO text stands for its instant, which is finite.
abbrev pub is_request_expired : PendingRequest → ℕ → Bool
is_request_expired request now = leb request.expires_at now

abbrev pub is_grant_expired : ActiveGrant → ℕ → Bool
is_grant_expired grant now = leb (min grant.renewal_due_at grant.authorization_expires_at) now

-- `-` on ℕ stops at 0, as `Math.max(0, …)` does.
abbrev pub to_request_summary : PendingRequest → ℕ → RequestSummary
to_request_summary request now = record {
  request_id = request.request_id;
  room = request.room;
  sharer_identity = request.sharer_identity;
  sharer_name = request.sharer_name;
  controller_identity = request.controller_identity;
  controller_name = request.controller_name;
  requested_at = request.requested_at;
  expires_at = request.expires_at;
  expires_in_ms = min request_ttl_ms (request.expires_at - now);
}

abbrev pub to_session_summary : ActiveGrant → SessionSummary
to_session_summary grant = record {
  session_id = grant.session_id;
  status = grant.status;
  sharer_identity = grant.sharer_identity;
  sharer_name = grant.sharer_name;
  controller_identity = grant.controller_identity;
  controller_name = grant.controller_name;
  agent_identity = grant.agent_identity;
  agent_connected = grant.agent_connected;
  renewal_due_at = grant.renewal_due_at;
}

abbrev pub or_hour : Option ℕ → ℕ → ℕ
or_hour none now = now + 60 * 60_000
or_hour (some t) now = t

abbrev pub or_throw {ℓ} : {W : Type 0} {A : Type ℓ} → Option A → Exception → M W A
or_throw none e = throw e
or_throw (some a) e = pure a

abbrev pub is_row : String → Option SessionRow → Bool
is_row id none = false
is_row id (some row) = same row.id id

abbrev pub is_some_requested : Option SessionRow → Bool
is_some_requested none = false
is_some_requested (some row) = is_requested row.status
