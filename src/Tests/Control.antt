-- ===== src/Tests/Control.antt =====
-- Remote Control state: one room, one request, and the session that it becomes.
use huddle.Prelude.{
  ◌+◌, ℕ, ◌≡◌, refl, String, none, some, List, [], ◌∷◌, true, false, arith, String-discrete,
  ne_of_str_eq,
}
use huddle.Dict
use huddle.Records.{PendingRequest, ActiveGrant, GrantStatus, Key-discrete}
use huddle.Redis
use huddle.Redis.{Store, empty}
use huddle.Redis.Strings.{entry}
use huddle.ControlState.{
  create_pending, consume_pending, activate, update_active, issue_bootstrap, consume_bootstrap,
}
use huddle.ControlState.History.{Call, creates, consumes, releases, activates, call, run}
use huddle.ControlState.Lock.{holder, HeldIn, IsLocked, call-IsLocked}
use huddle.ControlState.Holder.{run-IsLocked, call-holder}
use huddle.ControlState.Once.{consume_pending_once, consume_bootstrap_once, consume-issue_bootstrap}

unfoldable pub redis : Unit {0}
unfolding entry Redis.get Redis.set Redis.getdel Redis.del Redis.del_one Dict.get Dict.set
    Dict.remove Key-discrete String-discrete
redis = tt

unfoldable pub methods : Unit {0}
unfolding redis create_pending consume_pending activate update_active issue_bootstrap
    consume_bootstrap
methods = tt

abbrev pub request : PendingRequest
request = record {
  request_id = "q1";
  room = "abc-defg-hij";
  sharer_identity = "ann-1";
  sharer_name = "Ann";
  controller_identity = "bob-2";
  controller_name = "Bob";
  requested_at = 1000;
  expires_at = 31_000;
  controller_token_expires_at = 3_601_000;
}

abbrev pub grant : ActiveGrant
grant = record {
  session_id = "q1";
  room = "abc-defg-hij";
  room_id = "room1";
  sharer_identity = "ann-1";
  sharer_name = "Ann";
  controller_identity = "bob-2";
  controller_name = "Bob";
  agent_identity = "control-agent:q1";
  status = GrantStatus.awaiting_agent;
  agent_connected = false;
  started_at = 2000;
  renewal_due_at = 1_802_000;
  authorization_expires_at = 3_601_000;
  bootstrap_digest = none;
}

abbrev pub digest : String → String
digest code = code

-- The room while the request is pending, and once it is the active session.
abbrev pub asked : Store
asked = (create_pending 1000 false request empty).1

abbrev pub consumed : Store
consumed = (consume_pending 2000 "abc-defg-hij" "q1" asked).1

abbrev pub sharing : Store
sharing = (activate 2000 grant consumed).1

empty-IsLocked : IsLocked 0 empty
unfolding entry Dict.get
empty-IsLocked room = tt

lifecycle :
    ((create_pending 1000 false request empty).0 ≡ some true)
    × ((create_pending 1500 false request asked).0 ≡ some false)
    × ((create_pending 31_000 false request asked).0 ≡ some true)
    × ((consume_pending 2000 "abc-defg-hij" "q1" asked).0 ≡ some request)
    × ((activate 2000 grant consumed).0 ≡ true)
    × ((activate 2000 grant sharing).0 ≡ false)
unfolding methods
lifecycle = (refl, refl, refl, refl, refl, refl)

call-IsLocked_example : IsLocked 0 (call digest 0 (creates false request) empty)
call-IsLocked_example = call-IsLocked digest 0 (creates false request) empty tt empty-IsLocked

abbrev history : List (ℕ × Call)
history =
    (1000, creates false request) ∷ (1000, consumes "abc-defg-hij" "q1") ∷ (0, activates grant) ∷ []

run-IsLocked_example : IsLocked (run digest 0 history empty).0 (run digest 0 history empty).1
run-IsLocked_example = run-IsLocked digest 0 history empty (tt, (tt, (tt, tt))) empty-IsLocked

pub sharing-HeldIn : HeldIn 2500 "abc-defg-hij" sharing
unfolding methods
sharing-HeldIn = (refl, refl)

call-holder_example :
    holder 2500 (call digest 2500 (consumes "abc-defg-hij" "q2") sharing) "abc-defg-hij" ≡ some "q1"
unfolding methods
call-holder_example =
    call-holder digest 2500 "abc-defg-hij" "q1" sharing sharing-HeldIn refl
      (consumes "abc-defg-hij" "q2") (ne_of_str_eq "q2" "q1" refl)

consume_pending_once_example :
    (consume_pending
      (2060 + 40)
      "abc-defg-hij"
      "q1"
      (call digest 2060 (releases "abc-defg-hij" "q2") consumed)).0
    ≡ none
unfolding methods run call
consume_pending_once_example =
    consume_pending_once digest 2000 40 "abc-defg-hij" "q1" "q1" request
      ((60, releases "abc-defg-hij" "q2") ∷ []) asked refl (refl, tt)

abbrev pub issued : Store
issued = (issue_bootstrap 2500 digest "c1" grant sharing).1

consume-issue_bootstrap_example :
    (consume_bootstrap 122_499 digest "abc-defg-hij" "q1" "c1" issued).0
    ≡ some (record {
      room = "abc-defg-hij";
      session_id = "q1";
      digest = digest "c1";
      expires_at = 122_500;
    })
unfolding methods
consume-issue_bootstrap_example =
    consume-issue_bootstrap digest 2500 122_499 "c1" grant sharing (omega arith) refl

consume_bootstrap_once_example :
    (consume_bootstrap 3100 digest "abc-defg-hij" "q1" "c1"
      (consume_bootstrap 3000 digest "abc-defg-hij" "q1" "c1" issued).1).0
    ≡ none
unfolding methods
consume_bootstrap_once_example =
    consume_bootstrap_once digest 3000 3100 "abc-defg-hij" "abc-defg-hij" "q1" "q1" "c1" issued
      (omega arith)
