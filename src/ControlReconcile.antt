-- ===== src/ControlReconcile.antt =====
-- The end of sessions and requests in apps/api/src/rooms/remote-control.service.ts that nobody asks
-- for: the room finishes, the timer finds them due, or the operator upgrades the protocol.
use huddle.Prelude.{
  ℕ, ◌+◌, ◌-◌, String, Option, none, some, List, [], ◌∷◌, Bool, true, false, if◌then◌else◌, same,
  length,
}
use huddle.Records.{ActiveGrant}
use huddle.Act.{Act}
use huddle.ControlState
use huddle.ControlState.{request_ttl_ms, is_session}
use huddle.ControlRepo
use huddle.ControlRepo.{Sessions, SessionRow, SessionStatus, is_requested}
use huddle.Fault.{ok}
use huddle.Service.{pure, ◌>>=◌, ◌>>◌, try_catch, each}
use huddle.ControlWorld.{Environment, RoomRow}
use huddle.ControlSteps
use huddle.ControlSteps.{Service}

module _ (db : Sessions) (env : Environment) where
  abbrev redis {ℓ} : {A : Type ℓ} → (ℕ → Act A) → Service db A
  redis = ControlSteps.redis_call db env

  abbrev audit {ℓ} : {A : Type ℓ} → (db.Table → A × db.Table) → Service db A
  audit = ControlSteps.audit_call db env

  abbrev clock : Service db ℕ
  clock = ControlSteps.clock db env

  -- Ends a row's session: by the grant if it is the row's, and else by the row alone.
  end_row : SessionRow → SessionStatus → String → ℕ → Option ActiveGrant → Service db (Unit {0})
  end_row row status reason now none =
      ControlSteps.end_audit_fallback db env row row.row_slug status reason now
  end_row row status reason now (some grant) =
      if same grant.session_id row.id
      then ControlSteps.end_grant db env grant status reason now
      else ControlSteps.end_audit_fallback db env row row.row_slug status reason now

  unfoldable pub end_session : SessionStatus → String → ℕ → SessionRow → Service db (Unit {0})
  unfolding end_row
  end_session status reason now row = do
    grant ← redis (λ now. ControlState.get_active now row.row_slug)
    end_row row status reason now grant

  finish_audit : String → Option SessionRow → Service db (Unit {0})
  finish_audit slug none = pure tt
  finish_audit slug (some row) = do
    now ← clock
    ControlSteps.end_audit_fallback db env row slug SessionStatus.ended "room_finished" now

  finish_room : String → RoomRow → Option ActiveGrant → Service db (Unit {0})
  unfolding finish_audit
  finish_room slug room (some grant) = do
    now ← clock
    ControlSteps.end_grant db env grant SessionStatus.ended "room_finished" now
  finish_room slug room none = do
    active ← audit (λ t. (ControlRepo.find_active_by_room db room.id t, t))
    finish_audit slug active

  finished : String → Option RoomRow → Service db (Unit {0})
  unfolding finish_room
  finished slug none = pure tt
  finished slug (some room) = do
    grant ← redis (λ now. ControlState.get_active now slug)
    finish_room slug room grant

  unfoldable pub on_room_finished : String → Service db (Unit {0})
  unfolding finished
  on_room_finished slug = finished slug (env.find_room slug)

  unfoldable pub expire_row : ℕ → SessionRow → Service db (Unit {0})
  expire_row now row = do
    redis (λ now. ControlState.release_pending now row.row_slug row.id)
    audit (ControlRepo.expire_request db row.id now)
    pure tt

  set_reconciling : Bool → Service db (Unit {0})
  set_reconciling b w = (ok tt, record w { reconciling = b })

  -- The `catch` logs; the flag comes back in either case. `-` stops at 0, before any request.
  unfoldable pub reconcile_expirations : Service db (Unit {0})
  unfolding set_reconciling
  reconcile_expirations w =
      if w.reconciling
      then pure tt w
      else (do
        set_reconciling true
        now ← clock
        try_catch
            (do
              due_active ← audit (λ t. (ControlRepo.find_due_active db now t, t))
              expired_requests ←
                  audit (λ t. (ControlRepo.find_expired_requests db (now - request_ttl_ms) t, t))
              each (end_session SessionStatus.expired "renewal_timeout" now) due_active
              each (expire_row now) expired_requests)
            (λ e. pure tt)
        set_reconciling false)
          w

  -- One row of the cut-over; it answers whether it ended a grant or a request.
  cut_over_row : ℕ → SessionRow → Service db (ℕ × ℕ)
  cut_over_row now row =
      if is_requested row.status
      then (do
        redis (λ now. ControlState.release_pending now row.row_slug row.id)
        failed ← audit (ControlRepo.fail_request db row.id "protocol_upgrade" now)
        pure (0, if failed then 1 else 0))
      else (do end_session SessionStatus.ended "protocol_upgrade" now row; pure (1, 0))

  cut_over : ℕ → ℕ → ℕ → List SessionRow → Service db (ℕ × ℕ)
  unfolding cut_over_row
  cut_over now grants requests [] = pure (grants, requests)
  cut_over now grants requests (row ∷ rows) = do
    (g, q) ← cut_over_row now row
    cut_over now (grants + g) (requests + q) rows

  -- The numbers of rooms, of ended grants and requests, and of what remains.
  unfoldable pub force_protocol_upgrade_cutover : Service db (ℕ × ℕ × ℕ × ℕ)
  unfolding cut_over
  force_protocol_upgrade_cutover = do
    rows ← audit (λ t. (ControlRepo.find_requested_or_active db t, t))
    now ← clock
    (grants, requests) ← cut_over now 0 0 rows
    remaining ← audit (λ t. (ControlRepo.find_requested_or_active db t, t))
    pure (length env.active_rooms, grants, requests, length remaining)
