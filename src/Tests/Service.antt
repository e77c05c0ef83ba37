-- ===== src/Tests/Service.antt =====
-- Remote Control's service: a request, its approval and the session.
use huddle.Prelude.{
  ℕ, ◌<◌, ◌≤◌, ◌+◌, ◌≡◌, ◌≢◌, refl, none, some, List, [], ◌∷◌, true, false, same, if◌then◌else◌,
}
use huddle.Redis.{Store, empty}
use huddle.ControlState.{
  consume_bootstrap, get_active, get_pending, has_owner, release_pending, clear_active,
  revoke_bootstrap,
}
use huddle.ControlRepo
use huddle.ControlRepo.{SessionRow, SessionStatus}
use huddle.Fault.{ok, err}
use huddle.ControlWorld.{Environment, World, CallParticipant, not_found}
use huddle.ControlSteps
use huddle.ControlSteps.Lookup.{require_pending_drops_lock}
use huddle.ControlSteps.Ending.{end_grant_lem}
use huddle.ControlRequests
use huddle.ControlRequests.Consent.{approve_sound, request_control_sound}
use huddle.ControlSessions
use huddle.ControlSessions.Deadlines.{renew_bounds, redeem_helper_token_sound}
use huddle.Tests.Control.{methods, request, grant, digest, asked, sharing, issued, sharing-HeldIn}
use huddle.Tests.Sessions.{db}

service : Unit {0}
unfolding methods has_owner get_active get_pending release_pending clear_active revoke_bootstrap
    ControlRepo.create_request ControlRepo.find_by_id ControlRepo.activate
    ControlRepo.transition_requested ControlRepo.update_renewal ControlRepo.end_active
    ControlRepo.expire_request ControlSteps.connected_participant ControlSteps.presentation_active
    ControlSteps.require_room ControlSteps.require_protocol_version ControlSteps.settled
    ControlSteps.clear_livekit_state ControlSteps.end_grant ControlSteps.expire_pending
    ControlSteps.require_pending ControlSteps.require_active ControlRequests.request_control
    ControlRequests.ask ControlRequests.start ControlRequests.approve_consumed
    ControlRequests.approve ControlSessions.renew ControlSessions.stop
    ControlSessions.redeem_helper_token
service = tt

-- Ann and Bob are connected, nobody presents, and LiveKit accepts everything.
abbrev env : Environment
env = record {
  connected = λ calls room identity. some (
      some (record {
        identity = identity;
        name = if same identity "ann-1" then "Ann" else "Bob";
        is_control_agent = false;
      }));
  screen_share = λ calls room. some false;
  accepts = λ calls c. true;
  token = λ calls. "jwt";
  active_rooms = [];
  find_room = λ slug. some (record { id = "room1"; slug = slug });
  digest = digest;
  pending_write_fails = false;
}

abbrev row : SessionStatus → SessionRow
row status = record {
  id = "q1";
  room_id = "room1";
  row_slug = "abc-defg-hij";
  sharer_identity = "ann-1";
  sharer_name = "Ann";
  controller_identity = "bob-2";
  controller_name = "Bob";
  status = status;
  agent_identity = none;
  end_reason = none;
  created_at = 1000;
  started_at = none;
  renewal_due_at = none;
  ended_at = none;
}

abbrev at : ℕ → Store → List SessionRow → World (List SessionRow)
at now redis audit = record {
  now = now;
  redis = redis;
  audit = audit;
  livekit = [];
  reconciling = false;
}

-- Before the request, while it is pending, and once it is the active session.
abbrev free : World (List SessionRow)
free = at 1000 empty []

abbrev pending : World (List SessionRow)
pending = at 2000 asked (row SessionStatus.requested ∷ [])

abbrev active : World (List SessionRow)
active = at 2500 sharing (row SessionStatus.active ∷ [])

abbrev code_sent : World (List SessionRow)
code_sent = at 3000 issued (row SessionStatus.active ∷ [])

abbrev ann : CallParticipant
ann = record { identity = "ann-1"; name = "Ann"; token_expires_at = some 3_700_000 }

abbrev bob : CallParticipant
bob = record { identity = "bob-2"; name = "Bob"; token_expires_at = some 3_601_000 }

abbrev eve : CallParticipant
eve = record { identity = "eve-3"; name = "Eve"; token_expires_at = none }

request_control_sound_example : (has_owner 1000 "abc-defg-hij" empty).0 ≡ false
unfolding service
request_control_sound_example =
    (request_control_sound db env "abc-defg-hij" "ann-1" bob 2 free refl).2

approve_sound_example : 2000 < 31_000
unfolding service
approve_sound_example =
    (approve_sound db env "c1" "abc-defg-hij" "q1" ann 2 request pending refl refl).2

require_pending_drops_lock_example :
    (ControlSteps.require_pending db env "abc-defg-hij" "q1" active).0 ≡ err not_found
unfolding service
require_pending_drops_lock_example =
    (require_pending_drops_lock db env "abc-defg-hij" "q1" active sharing-HeldIn refl refl).0

end_grant_lem_example :
    (ControlSteps.end_grant db env grant SessionStatus.ended "sharer_stopped" 2500 active).0 ≡ ok tt
unfolding service
end_grant_lem_example =
    (end_grant_lem db env grant SessionStatus.ended "sharer_stopped" 2500 "q1" active sharing-HeldIn
      refl).0

renew_bounds_example : 1_802_500 ≤ 2500 + 1_800_000
unfolding service
renew_bounds_example = (renew_bounds db env "abc-defg-hij" "q1" ann grant active refl refl refl).3

redeem_helper_token_sound_example :
    (consume_bootstrap 3000 digest "abc-defg-hij" "q1" "c1" issued).0 ≢ none
unfolding service
redeem_helper_token_sound_example =
    (redeem_helper_token_sound db env "abc-defg-hij" "q1" "c1" 2 code_sent refl).3
