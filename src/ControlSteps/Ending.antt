-- ===== src/ControlSteps/Ending.antt =====
-- How a session ends: `endGrant`, and who may make it end.
use huddle.Prelude.{ℕ, ◌≡◌, refl, String, String-discrete, Option, none, some, arith, ite}
use huddle.Records.{ActiveGrant, owner_key, active_key}
use huddle.Redis.{Store}
use huddle.Redis.Strings.{entry, string_laws}
use huddle.ControlState.{clear_active, revoke_bootstrap}
use huddle.ControlState.Lock.{session, HeldIn}
use huddle.ControlRepo
use huddle.ControlRepo.{Sessions, SessionRow, SessionStatus, is_active, rewritten}
use huddle.Fault.{ok}
use huddle.ControlWorld.{Environment, World}
use huddle.ControlSteps.{end_grant, clear_livekit_state, settled}

-- The row of a session that has ended.
abbrev pub ended_row : SessionStatus → String → ℕ → SessionRow → SessionRow
ended_row status reason ended_at row = record row {
  status = status;
  end_reason = some reason;
  ended_at = some ended_at;
}

clear_active-lem :
    (now : ℕ) (g : ActiveGrant) (r : Store)
    → HeldIn now g.room r
    → session now r g.room ≡ some g.session_id
    → (entry now (clear_active now g.room g.session_id r).1 (active_key g.room) ≡ none)
      × (entry now (clear_active now g.room g.session_id r).1 (owner_key g.room) ≡ none)
unfolding clear_active
clear_active-lem now g r held active = grind (arith, string_laws)

revoke_bootstrap-frame :
    (now : ℕ) (g : ActiveGrant) (r : Store) (room : String)
    → (entry now (revoke_bootstrap now g r).1 (active_key room) ≡ entry now r (active_key room))
      × (entry now (revoke_bootstrap now g r).1 (owner_key room) ≡ entry now r (owner_key room))
unfolding revoke_bootstrap
revoke_bootstrap-frame now g r room = grind (arith, string_laws)

module _ (db : Sessions) (env : Environment) where
  clear_livekit_state-frame :
      (room : String) (agent : Option String) (w : World db.Table)
      → ((clear_livekit_state db env room agent w).0 ≡ ok tt)
        × ((clear_livekit_state db env room agent w).1.redis ≡ w.redis)
        × ((clear_livekit_state db env room agent w).1.audit ≡ w.audit)
        × ((clear_livekit_state db env room agent w).1.now ≡ w.now)
  unfolding clear_livekit_state settled
  clear_livekit_state-frame room agent w = ground arith

  end_grant-parts :
      (g : ActiveGrant) (status : SessionStatus) (reason : String) (ended_at : ℕ)
      (w : World db.Table)
      → let w' = (end_grant db env g status reason ended_at w).1 in
        ((end_grant db env g status reason ended_at w).0 ≡ ok tt)
        × (w'.now ≡ w.now)
        × (w'.redis
            ≡ (clear_active w.now g.room g.session_id (revoke_bootstrap w.now g w.redis).1).1)
        × (w'.audit ≡ (ControlRepo.end_active db g.session_id status reason ended_at w.audit).1)
  unfolding end_grant
  end_grant-parts g status reason ended_at w = ground (
    arith,
    clear_livekit_state-frame g.room (some g.agent_identity) (record w {
      redis = (clear_active w.now g.room g.session_id (revoke_bootstrap w.now g w.redis).1).1;
    }),
  )

  end_active-row :
      (id j : String) (status : SessionStatus) (reason : String) (at : ℕ) (t : db.Table)
      → db.find_unique j (ControlRepo.end_active db id status reason at t).1
        ≡ ite
            (String-discrete id j)
            (rewritten is_active (ended_row status reason at) (db.find_unique j t))
            (db.find_unique j t)
  unfolding ControlRepo.end_active
  end_active-row id j status reason at t =
      db.find_unique-update_where id j is_active (ended_row status reason at) t (λ row. refl)

  -- Ending the active session of a room, whose grant is under the room's lock with the lock's
  -- deadline, never fails, whatever LiveKit answers: the room has no active grant and no lock
  -- afterwards, the session's audit row is closed if it was active, and every other audit row
  -- stays.
  pub end_grant_lem :
      (g : ActiveGrant) (status : SessionStatus) (reason : String) (ended_at : ℕ) (j : String)
      (w : World db.Table)
      → HeldIn w.now g.room w.redis
      → session w.now w.redis g.room ≡ some g.session_id
      → let w' = (end_grant db env g status reason ended_at w).1 in
        ((end_grant db env g status reason ended_at w).0 ≡ ok tt)
        × (entry w'.now w'.redis (active_key g.room) ≡ none)
        × (entry w'.now w'.redis (owner_key g.room) ≡ none)
        × (db.find_unique j w'.audit
            ≡ ite
                (String-discrete g.session_id j)
                (rewritten is_active (ended_row status reason ended_at) (db.find_unique j w.audit))
                (db.find_unique j w.audit))
  end_grant_lem g status reason ended_at j w held active =
      let r1 = (revoke_bootstrap w.now g w.redis).1 in
      let frame = revoke_bootstrap-frame w.now g w.redis g.room in
      let (outcome, time, redis, audit) = end_grant-parts g status reason ended_at w in
      let (no_grant, no_lock) =
        clear_active-lem w.now g r1 (ground (arith, frame, held)) (ground (arith, frame, active)) in
      rw (time, redis, audit)
        (outcome, no_grant, no_lock, end_active-row g.session_id j status reason ended_at w.audit)
