-- ===== src/Delivery.antt =====
-- apps/api/src/rooms/recording-delivery.service.ts: recordings go to the host's Google Drive, and
-- their local copies are deleted in time. Time passes while a file is uploaded.
pub mod Lease
pub mod Retry
use huddle.Prelude.{
  ℕ, ◌+◌, ◌-◌, ◌*◌, ◌==◌, String, Option, none, some, List, [], ◌∷◌, length, Bool, true, false, not,
  ◌&&◌, ◌||◌, if◌then◌else◌, is_some, same, has, leb, ltb, min,
}
use huddle.Archive.{
  Archive, RecordingRow, RecordingStatus, DeliveryRow, DeliveryStatus, RecipientRow, ShareStatus,
  ConnectionRow, ConnectionStatus, is_connected, is_completed, is_delivered,
}
use huddle.Prisma.{Delegate, update_unique, holds}
use huddle.Fault.{Exception, Result, ok, err}
use huddle.Service.{M, pure, throw, ◌>>=◌, ◌>>◌, try_catch, when, each}
use huddle.DeliveryWorld
use huddle.DeliveryWorld.{
  OutsideCall, refresh_access_token, find_verified_existing, verify, share_reader, ensure_folder,
  upload, delete_object, notify_action_required, notify_expiry, UploadEvent, session, heartbeat_due,
  Environment, World, Service, lease_ms, hours, clock, on_recordings, on_deliveries, on_recipients,
  on_connections, outside, update_delivery, update_recording, active_connection,
  mark_action_required,
}

-- Dates that may be null, compared as Prisma does: null is not comparable.
abbrev pub at_most : ℕ → Option ℕ → Bool
at_most now none = false
at_most now (some t) = leb t now

abbrev pub later_than : ℕ → Option ℕ → Bool
later_than now none = false
later_than now (some t) = ltb now t

abbrev pub is_null {ℓ} : {A : Type ℓ} → Option A → Bool
is_null o = not (is_some o)

-- `OR: [{ leaseUntil: null }, { leaseUntil: { lt: now } }]`
abbrev pub lease_over : ℕ → Option ℕ → Bool
lease_over now none = true
lease_over now (some t) = ltb t now

-- `status: { in: ['queued', 'uploading'] }`
abbrev pub is_open : DeliveryStatus → Bool
is_open DeliveryStatus.queued = true
is_open DeliveryStatus.uploading = true
is_open _ = false

abbrev pub is_action_required : DeliveryStatus → Bool
is_action_required DeliveryStatus.action_required = true
is_action_required _ = false

abbrev pub is_pending : ShareStatus → Bool
is_pending ShareStatus.pending = true
is_pending _ = false

abbrev pub is_owner : String → Option String → Bool
is_owner owner none = false
is_owner owner (some o) = same o owner

-- A recording without deadline gets both.
abbrev pub with_deadline : ℕ → RecordingRow → RecordingRow
with_deadline t r = record r { local_expires_at = some t; local_delete_after = some t }

abbrev pub new_delivery : String → String → ℕ → DeliveryRow
new_delivery id recording_id now = record {
  id = id;
  recording_id = recording_id;
  status = DeliveryStatus.queued;
  attempts = 0;
  next_attempt_at = now;
  lease_owner = none;
  lease_until = none;
  encrypted_upload_session = none;
  upload_offset_bytes = 0;
  drive_file_id = none;
  drive_url = none;
  delivered_at = none;
  last_error = none;
  action_notified_at = none;
}

-- The delay before the next attempt in minutes, after so many attempts.
unfoldable pub retry_delay : ℕ → ℕ
retry_delay attempts =
    if leb attempts 1
    then 1
    else (if attempts == 2
        then 5
        else (if attempts == 3
            then 15
            else (if attempts == 4 then 60 else (if attempts == 5 then 180 else 360))))

abbrev pub requires_action : Exception → Bool
requires_action Exception.drive_authorization = true
requires_action (Exception.drive_api reason) =
    same reason "storageQuotaExceeded"
    || (same reason "dailyLimitExceeded" || same reason "domainPolicy")
requires_action _ = false

-- The copy stays for the safety window, but never past the hard deadline.
abbrev pub delete_after : Option ℕ → ℕ → ℕ
delete_after none retained_until = retained_until
delete_after (some expires) retained_until =
    if ltb expires retained_until then expires else retained_until

abbrev pub claimable : ℕ → DeliveryRow → Bool
claimable now d = is_open d.status && lease_over now d.lease_until

abbrev pub claimed_by : String → ℕ → DeliveryRow → DeliveryRow
claimed_by owner now d = record d {
  status = DeliveryStatus.uploading;
  lease_owner = some owner;
  lease_until = some (now + lease_ms);
}

module _ (db : Archive) (env : Environment) where
  abbrev pub recording_of : DeliveryRow → World db → Option RecordingRow
  recording_of d w = db.recordings.find_unique d.recording_id w.recordings

  -- The upsert by `recordingId`, whose update is empty; `id` is the new row's.
  queue_new : String → String → ℕ → Service db (Unit {0})
  queue_new id recording_id now = on_deliveries db (λ t. (
    tt,
    elim (db.deliveries.find_first (λ d. same d.recording_id recording_id) (λ d. 0) t) [
      | none ↦ db.deliveries.create (new_delivery id recording_id now) t
      | some d ↦ t
    ],
  ))

  if_connected : String → String → ℕ → Option ConnectionRow → Service db (Unit {0})
  if_connected id recording_id now none = pure tt
  if_connected id recording_id now (some c) = queue_new id recording_id now

  unfoldable pub on_recording_completed : String → String → String → Service db (Unit {0})
  unfolding queue_new if_connected
  on_recording_completed id recording_id host_user_id = do
    now ← clock db
    on_recordings db (
        db.recordings.update_many (λ r. same r.id recording_id && is_null r.local_expires_at)
          (with_deadline (now + hours env.local_retention_hours)))
    connection ← active_connection db host_user_id
    if_connected id recording_id now connection

  unfoldable pub initialize_existing_grace : Service db (Unit {0})
  initialize_existing_grace w =
      if w.initialized
      then pure tt w
      else (do
        now ← clock db
        on_recordings db (
            db.recordings.update_many
              (λ r.
                is_completed r.status && (is_null r.local_expires_at && is_null r.local_deleted_at))
              (with_deadline (now + hours env.local_retention_hours)))
        (λ w'. (ok tt, record w' { initialized = true })))
          w

  -- The recording is there, its host is not being deleted.
  abbrev pub deliverable : List String → Option RecordingRow → Bool
  deliverable deleting none = false
  deliverable deleting (some r) = is_null r.local_deleted_at && not (has r.host_user_id deleting)

  abbrev pub is_candidate : World db → DeliveryRow → Bool
  is_candidate w d =
      is_open d.status
      && (leb d.next_attempt_at w.now
          && (lease_over w.now d.lease_until && deliverable w.deleting (recording_of d w)))

  claim : Option DeliveryRow → Service db (Option String)
  claim none = pure none
  claim (some candidate) = do
    now ← clock db
    count ← on_deliveries db (
        db.deliveries.update_many (λ d. same d.id candidate.id && claimable now d)
          (claimed_by env.owner now))
    pure (if count == 1 then some candidate.id else none)

  unfoldable pub claim_next_delivery : Service db (Option String)
  unfolding claim
  claim_next_delivery w =
      claim (db.deliveries.find_first (is_candidate w) (λ d. d.next_attempt_at) w.deliveries) w

  unfoldable pub action_required : String → String → String → Service db (Unit {0})
  action_required id host_email reason w =
      (let notified =
            holds (λ d. is_some d.action_notified_at) (db.deliveries.find_unique id w.deliveries) in
          do
            update_delivery db id (λ d. record d {
              status = DeliveryStatus.action_required;
              last_error = some reason;
              lease_owner = none;
              lease_until = none;
            })
            when (not notified) (do
              outside db (notify_action_required host_email) (λ calls. ok (tt {0}))
              now ← clock db
              update_delivery db id (λ d. record d { action_notified_at = some now })))
        w

  unfoldable pub handle_delivery_error :
      DeliveryRow → RecordingRow → String → Exception → Service db (Unit {0})
  handle_delivery_error d r connection_id e =
      if requires_action e
      then (do
        mark_action_required db connection_id
        action_required d.id r.host_email (env.describe e))
      else (do
        now ← clock db
        update_delivery db d.id (λ row. record row {
          status = DeliveryStatus.queued;
          attempts = d.attempts + 1;
          next_attempt_at = now + retry_delay (d.attempts + 1) * 60_000;
          last_error = some (env.describe e);
          lease_owner = none;
          lease_until = none;
        }))
