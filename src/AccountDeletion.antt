-- ===== src/AccountDeletion.antt =====
-- apps/api/src/rooms/account-deletion.service.ts: the worker that deletes accounts, one job in a cycle.
-- What Remote Control, the waiting room and the storage connections do for it is an interface. The
-- parsing of an avatar's URL is a parameter. A user's recordings are read again at each step, which
-- gives the same rows; of the rows that go by cascade only the job is followed.
pub mod Order
use huddle.Prelude.{
  ℕ, ◌+◌, ◌-◌, String, Option, none, some, List, [], ◌∷◌, ◌++◌, Bool, true, false, not, ◌&&◌, ◌||◌,
  if◌then◌else◌, is_some, same, has, ltb, leb, keep,
}
use huddle.Archive.{Archive, RecordingRow, DeliveryRow, DeliveryStatus, is_running}
use huddle.Prisma.{Delegate, holds}
use huddle.Fault.{Exception, Result, ok, err}
use huddle.Service.{M, pure, throw, ◌>>=◌, ◌>>◌, try_catch, throw_if, when, each}
use huddle.Delivery.{later_than, is_open, is_action_required}

pub data DeletionStatus : Type 0 where
  pending processing : DeletionStatus

pub record DeletionRow : Type 0 where
  pub user_id : String
  pub status : DeletionStatus
  pub attempts : ℕ
  pub last_error : Option String
  pub created_at : ℕ
  pub updated_at : ℕ

abbrev pub deletion_key : DeletionRow → String
deletion_key r = r.user_id

pub record RoomRow : Type 0 where
  pub id : String
  pub slug : String

pub record UserRow : Type 0 where
  pub id : String
  pub image : Option String
  pub rooms : List RoomRow

pub record Participant : Type 0 where
  pub identity : String
  pub account_binding : Option String

pub data DeletionCall : Type 0 where
  list_active_rooms : DeletionCall
  remove_account_participants stop_egress end_room delete_object : String → DeletionCall

-- The other services.
pub record Services : Type 1 where
  pub State : Type 0
  pub remove_pending_knocks : String → String → M State (Unit {0})
  pub participant_left : String → String → M State (Unit {0})
  pub room_finished : String → M State (Unit {0})
  pub disconnect : String → M State (Unit {0})

pub record World (db : Archive) (queue : Delegate DeletionRow deletion_key) (inner : Services)
    : Type 0 where
  pub now : ℕ
  pub recordings : db.recordings.Table
  pub deliveries : db.deliveries.Table
  pub jobs : queue.Table
  pub users : List UserRow
  pub sessions : List String
  pub services : inner.State
  pub calls : List DeletionCall

pub record Environment : Type 0 where
  pub active_rooms : List DeletionCall → Result (List String)
  pub participants : String → Result (List Participant)
  pub accepts : List DeletionCall → DeletionCall → Result (Unit {0})
  pub says_not_found : Exception → Bool
  pub is_bound : String → Option String → Bool
  pub avatar_key : String → Option String
  pub describe : Exception → String

abbrev pub find_user : String → List UserRow → Option UserRow
find_user id [] = none
find_user id (u ∷ us) = let rest = find_user id us in if same u.id id then some u else rest

abbrev is_processing : DeletionStatus → Bool
is_processing DeletionStatus.pending = false
is_processing DeletionStatus.processing = true

abbrev is_uploading : DeliveryStatus → Bool
is_uploading DeliveryStatus.uploading = true
is_uploading _ = false

-- `OR: [{ status: 'pending' }, { status: 'processing', updatedAt: { lt: now } }]`, a minute ago.
abbrev pub is_free : ℕ → DeletionRow → Bool
is_free now r = not (is_processing r.status) || ltb r.updated_at (now - 60_000)

module _ (db : Archive) (jobs : Delegate DeletionRow deletion_key) (inner : Services)
    (env : Environment) where
  abbrev pub Step {ℓ} : Type ℓ → Type ℓ
  Step A = M (World db jobs inner) A

  abbrev pub call : DeletionCall → Step (Unit {0})
  call c w = (env.accepts w.calls c, record w { calls = w.calls ++ c ∷ [] })

  abbrev pub list_rooms : Step (List String)
  list_rooms w = (env.active_rooms w.calls, record w { calls = w.calls ++ list_active_rooms ∷ [] })

  abbrev pub serve : M inner.State (Unit {0}) → Step (Unit {0})
  serve act w = let (a, s) = act w.services in (a, record w { services = s })

  -- The session's rows go at once, and the job is queued again if it was there.
  unfoldable pub request : String → Step Bool
  request user_id = do
    (λ w. (
      ok (tt {0}),
      record w {
        jobs = (elim (jobs.find_unique user_id w.jobs) [
          | none ↦
              jobs.create
                (record {
                  user_id = user_id;
                  status = DeletionStatus.pending;
                  attempts = 0;
                  last_error = none;
                  created_at = w.now;
                  updated_at = w.now;
                })
                w.jobs
          | some r ↦
              (jobs.update_many (λ r. same r.user_id user_id)
                (λ r. record r {
                  status = DeletionStatus.pending;
                  last_error = none;
                  updated_at = w.now;
                })
                w.jobs).1
        ]);
        sessions = keep (λ s. not (same s user_id)) w.sessions;
      },
    ))
    pure true

  leave_if_bound : String → String → Participant → Step (Unit {0})
  leave_if_bound user_id room p =
      when (env.is_bound user_id p.account_binding) (serve (inner.participant_left room p.identity))

  unfoldable pub leave_room : String → String → Step (Unit {0})
  unfolding leave_if_bound
  leave_room user_id room = do
    ps ← (λ w. (env.participants room, w))
    each (leave_if_bound user_id room) ps

  abbrev pub recordings_in : World db jobs inner → RoomRow → List RecordingRow
  recordings_in w room = db.recordings.find_many (λ r. same r.room_id room.id) w.recordings

  -- A recording that Egress no longer knows counts as stopped.
  stop_if_running : RecordingRow → Step (Unit {0})
  stop_if_running r =
      when (is_running r.status)
        (try_catch (call (stop_egress r.egress_id)) (λ e. throw_if (not (env.says_not_found e)) e))

  unfoldable pub close_room : RoomRow → Step (Unit {0})
  unfolding stop_if_running
  close_room room = do
    serve (inner.room_finished room.slug)
    (λ w. each stop_if_running (recordings_in w room) w)
    active ← list_rooms
    when (has room.slug active) (call (end_room room.slug))

  unfoldable pub of_user : String → World db jobs inner → DeliveryRow → Bool
  of_user user_id w d =
      holds (λ r. same r.host_user_id user_id)
        (db.recordings.find_unique d.recording_id w.recordings)

  unfoldable pub is_upload : String → World db jobs inner → DeliveryRow → Bool
  unfolding of_user
  is_upload user_id w d =
      is_uploading d.status && (later_than w.now d.lease_until && of_user user_id w d)

  -- A delivery that a worker is uploading goes first.
  unfoldable pub require_no_upload : String → Step (Unit {0})
  unfolding is_upload
  require_no_upload user_id w =
      throw_if (is_some (db.deliveries.find_first (is_upload user_id w) (λ d. 0) w.deliveries))
        Exception.failure w

  unfoldable pub stop_deliveries : String → Step (Unit {0})
  unfolding of_user
  stop_deliveries user_id w = (
    ok tt,
    record w {
      deliveries =
          (db.deliveries.update_many
            (λ d. (is_open d.status || is_action_required d.status) && of_user user_id w d)
            (λ d. record d {
              status = DeliveryStatus.action_required;
              lease_owner = none;
              lease_until = none;
              encrypted_upload_session = none;
              last_error = some "Account deletion in progress";
            })
            w.deliveries).1;
    },
  )

  unfoldable pub delete_objects : RoomRow → Step (Unit {0})
  delete_objects room w =
      each (λ (r : RecordingRow). call (delete_object r.object_key)) (recordings_in w room) w

  unfoldable pub avatar_of : Option String → Option String
  avatar_of none = none
  avatar_of (some url) = if same url "" then none else env.avatar_key url

  unfoldable pub delete_owned_avatar : Option String → Step (Unit {0})
  unfolding avatar_of
  delete_owned_avatar url = elim (avatar_of url) [
    | none ↦ pure tt
    | some key ↦ call (delete_object key)
  ]

  -- The job goes with the user, by the schema's cascade.
  unfoldable pub delete_user : String → Step (Unit {0})
  delete_user user_id w = (
    ok tt,
    record w {
      sessions = keep (λ s. not (same s user_id)) w.sessions;
      users = keep (λ u. not (same u.id user_id)) w.users;
      jobs = jobs.delete_many (λ r. same r.user_id user_id) w.jobs;
    },
  )

  -- From the check for uploads to the end.
  unfoldable pub delete_all : String → UserRow → Step (Unit {0})
  delete_all user_id user = do
    require_no_upload user_id
    each close_room user.rooms
    stop_deliveries user_id
    each delete_objects user.rooms
    serve (inner.disconnect user_id)
    delete_owned_avatar user.image
    delete_user user_id

  unfoldable pub delete_found : String → Option UserRow → Step (Unit {0})
  delete_found user_id none w =
      (ok tt, record w { jobs = jobs.delete_many (λ r. same r.user_id user_id) w.jobs })
  delete_found user_id (some user) w = delete_all user_id user w

  unfoldable pub cleanup : String → Step (Unit {0})
  unfolding delete_found
  cleanup user_id = do
    rooms ← list_rooms
    each (λ room. serve (inner.remove_pending_knocks room user_id)) rooms
    each (leave_room user_id) rooms
    call (remove_account_participants user_id)
    (λ w. delete_found user_id (find_user user_id w.users) w)

  unfoldable pub requeue : String → Exception → Step (Unit {0})
  requeue user_id e w = (
    ok tt,
    record w {
      jobs =
          (jobs.update_many (λ r. same r.user_id user_id && is_processing r.status)
            (λ r. record r {
              status = DeletionStatus.pending;
              last_error = some (env.describe e);
              updated_at = w.now;
            })
            w.jobs).1;
    },
  )

  claim : DeletionRow → Step ℕ
  claim job w =
      let (count, t) =
        jobs.update_many (λ r. same r.user_id job.user_id && is_free w.now r)
          (λ r. record r {
            status = DeletionStatus.processing;
            attempts = r.attempts + 1;
            last_error = none;
            updated_at = w.now;
          })
          w.jobs in
      (ok count, record w { jobs = t })

  process : Option DeletionRow → Step (Unit {0})
  unfolding claim
  process none = pure tt
  process (some job) = do
    count ← claim job
    if leb count 0 || ltb 1 count
        then pure tt
        else try_catch (cleanup job.user_id) (requeue job.user_id)

  -- `busy` keeps a second cycle out of one process.
  unfoldable pub run_cycle : Step (Unit {0})
  unfolding process
  run_cycle w = process (jobs.find_first (is_free w.now) (λ r. r.created_at) w.jobs) w
