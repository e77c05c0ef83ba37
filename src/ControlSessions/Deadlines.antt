-- ===== src/ControlSessions/Deadlines.antt =====
-- Who may stop, renew and redeem an active session, and until when.
use huddle.Prelude.{
  ℕ, ◌+◌, ◌≤◌, ◌<◌, ◌≡◌, ◌≢◌, inl, inr, Option-cases, refl, String, none, some, arith,
  if◌then◌else◌, same, ◌||◌,
}
use huddle.Records.{Key, ActiveGrant, owner_key, active_key, as_active}
use huddle.Redis.{Store, value_of}
use huddle.Redis.Strings.{entry, string_laws}
use huddle.ControlState.{consume_bootstrap, active_in, get_active}
use huddle.ControlState.Lock.{session, HeldIn}
use huddle.ControlRepo.{Sessions, SessionStatus}
use huddle.Fault.{ok, err}
use huddle.ControlWorld.{
  Environment, World, CallParticipant, not_allowed, is_grant_expired, SessionSummary,
  to_session_summary,
}
use huddle.ControlSteps
use huddle.ControlSteps.{end_grant, require_active}
use huddle.ControlSteps.Ending.{end_grant_lem}
use huddle.ControlSessions.{stop, renew, redeem_helper_token}

pub get_active_lem :
    (now : ℕ) (room : String) (r : Store)
    → (get_active now room r).0
      ≡ active_in room (as_active (value_of (entry now r (active_key room))))
unfolding get_active
get_active_lem now room r = grind (arith, string_laws)

pub get_active-entry :
    (now : ℕ) (room : String) (r : Store) (j : Key)
    → entry now (get_active now room r).1 j ≡ entry now r j
unfolding get_active
get_active-entry now room r j = grind (arith, string_laws)

-- An active grant that is found is of the room.
pub active_room :
    (now : ℕ) (room : String) (r : Store) (g : ActiveGrant)
    → (get_active now room r).0 ≡ some g
    → (g.room ≡ room) × (as_active (value_of (entry now r (active_key room))) ≡ some g)
active_room now room r g found = grind (arith, get_active_lem now room r)

-- Looking the active grant up leaves it under the lock.
pub get_active-held :
    (now : ℕ) (room : String) (r : Store) (g : ActiveGrant)
    → (get_active now room r).0 ≡ some g
    → HeldIn now room r
    → HeldIn now g.room (get_active now room r).1
      × (session now (get_active now room r).1 g.room ≡ some g.session_id)
get_active-held now room r g found held =
    let (at, stored) = active_room now room r g found in
    rw
      (
        at,
        get_active-entry now room r (active_key room),
        get_active-entry now room r (owner_key room),
      )
      (held, rw (stored) refl)

module _ (db : Sessions) (env : Environment) where
  require_active_found :
      (room id : String) (g : ActiveGrant) (w : World db.Table)
      → (get_active w.now room w.redis).0 ≡ some g
      → g.session_id ≡ id
      → require_active db env room id w
        ≡ (ok g, record w { redis = (get_active w.now room w.redis).1 })
  unfolding require_active
  require_active_found room id g w found mine = ground arith

  -- A renewal of the room's active session that succeeds was asked for by the Sharer before the
  -- grant's deadlines, and the next deadline lies in the future, at most half an hour ahead and
  -- never after the authorization of the two people ends.
  pub renew_bounds :
      (room id : String) (p : CallParticipant) (g : ActiveGrant) (w : World db.Table) {t : ℕ}
      → (get_active w.now room w.redis).0 ≡ some g
      → g.session_id ≡ id
      → (renew db env room id p w).0 ≡ ok t
      → (p.identity ≡ g.sharer_identity)
        × (w.now < g.renewal_due_at)
        × (w.now < t)
        × (t ≤ w.now + 1_800_000)
        × (t ≤ g.authorization_expires_at)
  unfolding renew
  renew_bounds room id p g w found mine done =
      ground (arith, require_active_found room id g w found mine)

  -- Stopping the active session of a room, whose grant is under the room's lock with the lock's
  -- deadline, works for its Sharer and its Controller, and leaves the room without active grant and
  -- lock; anybody else is refused, and the grant and the lock stay.
  pub stop_lem :
      (room id : String) (p : CallParticipant) (g : ActiveGrant) (w : World db.Table)
      → (get_active w.now room w.redis).0 ≡ some g
      → g.session_id ≡ id
      → HeldIn w.now room w.redis
      → let w' = (stop db env room id p w).1 in
        let may = same p.identity g.sharer_identity || same p.identity g.controller_identity in
        ((stop db env room id p w).0 ≡ (if may then ok w.now else err not_allowed))
        × (entry w'.now w'.redis (active_key room)
            ≡ (if may then none else entry w.now w.redis (active_key room)))
        × (entry w'.now w'.redis (owner_key room)
            ≡ (if may then none else entry w.now w.redis (owner_key room)))
  unfolding stop
  stop_lem room id p g w found mine held =
      let w1 = record w { redis = (get_active w.now room w.redis).1 } in
      let leaves = get_active-held w.now room w.redis g found held in
      let ends =
        end_grant_lem db env g
          (if is_grant_expired g w.now then SessionStatus.expired else SessionStatus.ended)
          (if is_grant_expired g w.now
            then "renewal_timeout"
            else (if same p.identity g.sharer_identity
                then "sharer_stopped"
                else "controller_stopped"))
          w.now id w1 in
      ground (
        arith,
        require_active_found room id g w found mine,
        get_active-entry w.now room w.redis (active_key room),
        get_active-entry w.now room w.redis (owner_key room),
        active_room w.now room w.redis g found,
        ends leaves.0 leaves.1,
      )

  redeem_needs_grant :
      (room id code : String) (version : ℕ) (w : World db.Table) {token : String}
      {shown : SessionSummary}
      → (redeem_helper_token db env room id code version w).0 ≡ ok (token, shown)
      → (get_active w.now room (consume_bootstrap w.now env.digest room id code w.redis).1).0 ≢ none
  unfolding redeem_helper_token ControlSteps.require_protocol_version
  redeem_needs_grant room id code version w done = ground arith

  redeem-grant :
      (room id code : String) (version : ℕ) (g : ActiveGrant) (w : World db.Table) {token : String}
      {shown : SessionSummary}
      → (get_active w.now room (consume_bootstrap w.now env.digest room id code w.redis).1).0
        ≡ some g
      → (redeem_helper_token db env room id code version w).0 ≡ ok (token, shown)
      → (version ≡ 2)
        × ((consume_bootstrap w.now env.digest room id code w.redis).0 ≢ none)
        × (g.session_id ≡ id)
        × (w.now < g.renewal_due_at)
        × (w.now < g.authorization_expires_at)
        × (shown ≡ to_session_summary g)
  unfolding redeem_helper_token ControlSteps.require_protocol_version
  redeem-grant room id code version g w found done = ground arith

  -- A Control Agent's token is handed out only for protocol version 2, for a bootstrap code that
  -- was there to consume, to the session of the room's active grant, before its deadlines, and with
  -- that grant's summary.
  pub redeem_helper_token_sound :
      (room id code : String) (version : ℕ) (w : World db.Table) {token : String}
      {shown : SessionSummary}
      → (redeem_helper_token db env room id code version w).0 ≡ ok (token, shown)
      → let (consumed, redis) = consume_bootstrap w.now env.digest room id code w.redis in
        (g : ActiveGrant) × ((get_active w.now room redis).0 ≡ some g)
        × (version ≡ 2)
        × (consumed ≢ none)
        × (g.session_id ≡ id)
        × (w.now < g.renewal_due_at)
        × (w.now < g.authorization_expires_at)
        × (shown ≡ to_session_summary g)
  redeem_helper_token_sound room id code version w done =
      let redis = (consume_bootstrap w.now env.digest room id code w.redis).1 in
      elim (Option-cases (get_active w.now room redis).0) [
        | inl gone ↦ absurd (redeem_needs_grant room id code version w done gone)
        | inr (g, found) ↦
            let (protocol, consumed, mine, due, authorized, summary) =
              redeem-grant room id code version g w found done in
            (g, found, protocol, consumed, mine, due, authorized, summary)
      ]
