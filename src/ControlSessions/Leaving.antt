-- ===== src/ControlSessions/Leaving.antt =====
-- What the leaving of a participant does to the active session of the room.
use huddle.Prelude.{◌≡◌, String, none, some, arith, if◌then◌else◌, same, ◌||◌}
use huddle.Records.{ActiveGrant, owner_key, active_key}
use huddle.Redis.Strings.{entry}
use huddle.ControlState.{get_active}
use huddle.ControlState.Lock.{HeldIn}
use huddle.ControlRepo.{Sessions, SessionStatus}
use huddle.Fault.{ok}
use huddle.ControlWorld.{Environment, World}
use huddle.ControlSteps.Ending.{end_grant_lem}
use huddle.ControlSessions.{on_participant_left}
use huddle.ControlSessions.Deadlines.{get_active-entry, get_active-held, active_room}

module _ (db : Sessions) (env : Environment) where
  -- When the active grant of a room is under the room's lock with the lock's deadline, and the
  -- Sharer, the Controller or the Control Agent of the session leaves, the room has no active grant
  -- and no lock afterwards; when anybody else leaves, both stay.
  pub on_participant_left_lem :
      (room identity : String) (g : ActiveGrant) (w : World db.Table)
      → (get_active w.now room w.redis).0 ≡ some g
      → HeldIn w.now room w.redis
      → let w' = (on_participant_left db env room identity w).1 in
        let party =
          same identity g.sharer_identity
          || (same identity g.controller_identity || same identity g.agent_identity) in
        ((on_participant_left db env room identity w).0 ≡ ok tt)
        × (entry w'.now w'.redis (active_key room)
            ≡ (if party then none else entry w.now w.redis (active_key room)))
        × (entry w'.now w'.redis (owner_key room)
            ≡ (if party then none else entry w.now w.redis (owner_key room)))
  unfolding on_participant_left
  on_participant_left_lem room identity g w found held =
      let w1 = record w { redis = (get_active w.now room w.redis).1 } in
      let leaves = get_active-held w.now room w.redis g found held in
      let ends : (reason : String) → _ = λ reason.
        end_grant_lem db env g SessionStatus.ended reason w.now identity w1 leaves.0 leaves.1 in
      ground (
        arith,
        get_active-entry w.now room w.redis (active_key room),
        get_active-entry w.now room w.redis (owner_key room),
        active_room w.now room w.redis g found,
        ends "sharer_disconnected",
        ends "controller_disconnected",
        ends "agent_disconnected",
      )
