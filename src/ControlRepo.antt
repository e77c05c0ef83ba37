-- ===== src/ControlRepo.antt =====
-- apps/api/src/rooms/remote-control.repo.ts: the audit rows of Remote Control. Prisma's delegate
-- for the table is the parameter `Sessions`, with what the repository relies on. No call of it throws:
-- that an index of the table refuses a second active session of a room is left out.
use huddle.Prelude.{
  ℕ, ◌≡◌, String, Option, none, some, List, Bool, true, false, ◌&&◌, ◌||◌, if◌then◌else◌, leb, same,
  ◌==◌, ite, String-discrete,
}

pub data SessionStatus : Type 0 where
  requested active denied withdrawn expired ended failed : SessionStatus

pub SessionStatus-discrete : Discrete SessionStatus
SessionStatus-discrete = hlevel

abbrev pub is_requested : SessionStatus → Bool
is_requested SessionStatus.requested = true
is_requested _ = false

abbrev pub is_active : SessionStatus → Bool
is_active SessionStatus.active = true
is_active _ = false

-- `row_slug` is the slug of the row's room, which some queries include.
pub record SessionRow : Type 0 where
  pub id : String
  pub room_id : String
  pub row_slug : String
  pub sharer_identity : String
  pub sharer_name : String
  pub controller_identity : String
  pub controller_name : String
  pub status : SessionStatus
  pub agent_identity : Option String
  pub end_reason : Option String
  pub created_at : ℕ
  pub started_at : Option ℕ
  pub renewal_due_at : Option ℕ
  pub ended_at : Option ℕ

pub record RequestParams : Type 0 where
  pub room_id : String
  pub sharer_identity : String
  pub sharer_name : String
  pub controller_identity : String
  pub controller_name : String

-- The row of a new request, as `create` fills it in.
abbrev pub Fits : RequestParams → ℕ → SessionRow → Type 0
Fits p now row =
    (row.room_id ≡ p.room_id)
    × (row.sharer_identity ≡ p.sharer_identity)
    × (row.controller_identity ≡ p.controller_identity)
    × (row.status ≡ SessionStatus.requested)
    × (row.created_at ≡ now)

-- A row found by its id and status, and rewritten if it has the status.
abbrev pub has_status : (SessionStatus → Bool) → Option SessionRow → Bool
has_status p none = false
has_status p (some row) = p row.status

abbrev pub rewritten :
    (SessionStatus → Bool) → (SessionRow → SessionRow) → Option SessionRow → Option SessionRow
rewritten p f none = none
rewritten p f (some row) = if p row.status then some (f row) else some row

-- `update_where id p f` is `updateMany` for the rows with the id and a status in `p`.
pub record Sessions : Type 1 where
  pub Table : Type 0
  pub create : ℕ → RequestParams → Table → SessionRow × Table
  pub find_unique : String → Table → Option SessionRow
  pub find_first : (SessionRow → Bool) → Table → Option SessionRow
  pub find_many : (SessionRow → Bool) → Table → List SessionRow
  pub update_where : String → (SessionStatus → Bool) → (SessionRow → SessionRow) → Table → ℕ × Table
  pub create_fits : (now : ℕ) (p : RequestParams) (t : Table) → Fits p now (create now p t).0
  pub find_unique-create :
      (now : ℕ) (p : RequestParams) (t : Table) (id : String)
      → find_unique id (create now p t).1
        ≡ ite
            (String-discrete (create now p t).0.id id)
            (some (create now p t).0)
            (find_unique id t)
  pub update_where_count :
      (id : String) (p : SessionStatus → Bool) (f : SessionRow → SessionRow) (t : Table)
      → (update_where id p f t).0 ≡ (if has_status p (find_unique id t) then 1 else 0)
  pub find_unique-update_where :
      (id j : String) (p : SessionStatus → Bool) (f : SessionRow → SessionRow) (t : Table)
      → ((row : SessionRow) → (f row).id ≡ row.id)
      → find_unique j (update_where id p f t).1
        ≡ ite (String-discrete id j) (rewritten p f (find_unique j t)) (find_unique j t)

module _ (db : Sessions) where
  open db use {Table}

  unfoldable pub create_request : ℕ → RequestParams → Table → SessionRow × Table
  create_request now p t = db.create now p t

  unfoldable pub find_by_id : String → Table → Option SessionRow
  find_by_id id t = db.find_unique id t

  unfoldable pub find_active_by_room : String → Table → Option SessionRow
  find_active_by_room room_id t =
      db.find_first (λ row. same row.room_id room_id && is_active row.status) t

  unfoldable pub activate : String → String → ℕ → ℕ → Table → Option SessionRow × Table
  activate id agent_identity started_at renewal_due_at t =
      let (count, t') =
        db.update_where id is_requested
          (λ row. record row {
            status = SessionStatus.active;
            agent_identity = some agent_identity;
            started_at = some started_at;
            renewal_due_at = some renewal_due_at;
          })
          t in
      (if count == 1 then find_by_id id t' else none, t')

  unfoldable pub transition_requested : String → SessionStatus → String → ℕ → Table → Bool × Table
  transition_requested id status end_reason ended_at t =
      let (count, t') =
        db.update_where id is_requested
          (λ row. record row {
            status = status;
            end_reason = some end_reason;
            ended_at = some ended_at;
          })
          t in
      (count == 1, t')

  unfoldable pub deny : String → ℕ → Table → Bool × Table
  deny id ended_at = transition_requested id SessionStatus.denied "sharer_denied" ended_at

  unfoldable pub withdraw : String → ℕ → Table → Bool × Table
  withdraw id ended_at =
      transition_requested id SessionStatus.withdrawn "controller_withdrew" ended_at

  unfoldable pub expire_request : String → ℕ → Table → Bool × Table
  expire_request id ended_at =
      transition_requested id SessionStatus.expired "request_timeout" ended_at

  unfoldable pub fail_request : String → String → ℕ → Table → Bool × Table
  fail_request id reason ended_at = transition_requested id SessionStatus.failed reason ended_at

  unfoldable pub update_renewal : String → ℕ → Table → Bool × Table
  update_renewal id renewal_due_at t =
      let (count, t') =
        db.update_where id is_active (λ row. record row { renewal_due_at = some renewal_due_at })
          t in
      (count == 1, t')

  unfoldable pub end_active : String → SessionStatus → String → ℕ → Table → Bool × Table
  end_active id status end_reason ended_at t =
      let (count, t') =
        db.update_where id is_active
          (λ row. record row {
            status = status;
            end_reason = some end_reason;
            ended_at = some ended_at;
          })
          t in
      (count == 1, t')

  -- A date that is null is no date `lte` another.
  abbrev due : ℕ → Option ℕ → Bool
  due now none = false
  due now (some t) = leb t now

  unfoldable pub find_due_active : ℕ → Table → List SessionRow
  find_due_active now t = db.find_many (λ row. is_active row.status && due now row.renewal_due_at) t

  unfoldable pub find_expired_requests : ℕ → Table → List SessionRow
  find_expired_requests cutoff t =
      db.find_many (λ row. is_requested row.status && leb row.created_at cutoff) t

  unfoldable pub find_requested_or_active : Table → List SessionRow
  find_requested_or_active t =
      db.find_many (λ row. is_requested row.status || is_active row.status) t
