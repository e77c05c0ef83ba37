-- ===== src/DeliveryCycle.antt =====
-- The worker's cycle of apps/api/src/rooms/recording-delivery.service.ts: one delivery from its claim to
-- the shares, the reminders and the deletions. Time passes while a file is uploaded.
pub mod Takeover
pub mod Retention
use huddle.Prelude.{
  ◌++◌, map, keep, take, ℕ, ◌+◌, ◌-◌, ◌*◌, ◌==◌, String, Option, none, some, List, [], ◌∷◌, length,
  Bool, true, false, not, ◌&&◌, ◌||◌, if◌then◌else◌, is_some, same, has, leb, ltb, min,
}
use huddle.Archive.{
  Archive, RecordingRow, RecordingStatus, DeliveryRow, DeliveryStatus, RecipientRow, ShareStatus,
  ConnectionRow, ConnectionStatus, is_connected, is_completed, is_delivered,
}
use huddle.Prisma.{Delegate, update_unique, holds}
use huddle.Fault.{Exception, Result, ok, err}
use huddle.Service.{M, pure, throw, ◌>>=◌, ◌>>◌, try_catch, when, each}
use huddle.DeliveryWorld
use huddle.DeliveryWorld.{
  OutsideCall, refresh_access_token, find_verified_existing, verify, share_reader, ensure_folder,
  upload, delete_object, notify_action_required, notify_expiry, UploadEvent, session, heartbeat_due,
  Environment, World, Service, lease_ms, hours, clock, on_recordings, on_deliveries, on_recipients,
  on_connections, outside, update_delivery, update_recording, active_connection,
  mark_action_required,
}
use huddle.Delivery.{
  at_most, later_than, is_null, is_pending, is_action_required, is_owner, new_delivery,
  delete_after, recording_of, on_recording_completed, initialize_existing_grace,
  claim_next_delivery, action_required, handle_delivery_error,
}

module _ (db : Archive) (env : Environment) where
  abbrev is_mine : String → DeliveryRow → Bool
  is_mine id d = same d.id id && is_owner env.owner d.lease_owner

  pass : ℕ → Service db (Unit {0})
  pass wait w = (ok tt, record w { now = w.now + wait })

  -- The host of the delivery's recording is being deleted.
  host_deleting : String → World db → Bool
  host_deleting id w = elim (db.deliveries.find_unique id w.deliveries) [
    | none ↦ false
    | some d ↦ holds (λ r. has r.host_user_id w.deleting) (recording_of db env d w)
  ]

  unfoldable pub heartbeat : String → Service db (Unit {0})
  unfolding host_deleting
  heartbeat id w =
      if host_deleting id w
      then throw Exception.failure w
      else on_deliveries db
          (λ t. (
            tt,
            (db.deliveries.update_many (is_mine id)
                (λ d. record d { lease_until = some (w.now + lease_ms) }) t).1,
          ))
          w

  encrypted : Option String → Option String
  encrypted none = none
  encrypted (some url) = if same url "" then none else some (env.encrypt url)

  on_session : String → Option String → ℕ → Service db (Unit {0})
  unfolding encrypted
  on_session id url offset = do
    now ← clock db
    on_deliveries db (λ t. (
      tt,
      (db.deliveries.update_many (is_mine id)
          (λ d. record d {
            encrypted_upload_session = encrypted url;
            upload_offset_bytes = offset;
            lease_until = some (now + lease_ms);
          })
          t).1,
    ))

  unfoldable pub on_event : String → UploadEvent → Service db (Unit {0})
  unfolding pass on_session
  on_event id (session wait url offset) = do pass wait; on_session id url offset
  on_event id (heartbeat_due wait) = do pass wait; heartbeat id

  unfoldable pub upload_delivery : DeliveryRow → Service db String
  upload_delivery d = do
    folder ← outside db (ensure_folder d.recording_id) env.folder
    (λ w.
        let (events, result) = env.sent w.outside in
        let rest : Service db String = (do each (on_event d.id) events; (λ w'. (result, w'))) in
        rest (record w { outside = w.outside ++ upload folder ∷ [] }))

  file_of : DeliveryRow → Option String → Service db String
  file_of d (some file) = pure file
  file_of d none = upload_delivery d

  link : String → Option String → String
  link file none = env.drive_link file
  link file (some url) = url

  -- The two updates of the transaction.
  unfoldable pub mark_delivered :
      DeliveryRow → RecordingRow → String → Option String → Service db (Unit {0})
  unfolding link
  mark_delivered d r file url = do
    now ← clock db
    update_delivery db d.id (λ row. record row {
      status = DeliveryStatus.delivered;
      drive_file_id = some file;
      drive_url = some (link file url);
      delivered_at = some now;
      last_error = none;
      encrypted_upload_session = none;
      lease_owner = none;
      lease_until = none;
    })
    update_recording db r.id (λ row. record row {
      local_delete_after =
          some (delete_after r.local_expires_at (now + hours env.delivered_retention_hours));
    })

  update_recipient : String → (RecipientRow → RecipientRow) → Service db (Unit {0})
  update_recipient id f = on_recipients db (λ t. (tt, update_unique db.recipients id f t))

  -- The outer `catch` takes what the last update throws, which is nothing here.
  share_one : String → String → RecipientRow → Service db (Unit {0})
  unfolding update_recipient
  share_one file token r =
      try_catch
        (do
          permission ←
              outside db (share_reader file r.email) (λ calls. env.shared calls file r.email)
          update_recipient r.id (λ row. record row {
            status = ShareStatus.shared;
            permission_id = permission;
            error = none;
          }))
        (λ e.
          update_recipient r.id
            (λ row. record row { status = ShareStatus.failed; error = some (env.describe e) }))

  unfoldable pub share_recipients : String → String → String → Service db (Unit {0})
  unfolding share_one
  share_recipients recording_id file token w =
      each (share_one file token)
        (db.recipients.find_many (λ r. same r.recording_id recording_id && is_pending r.status)
          w.recipients)
        w

  unfoldable pub hand_over : DeliveryRow → RecordingRow → ConnectionRow → Service db (Unit {0})
  unfolding file_of
  hand_over d r connection = do
    token ←
        outside db (refresh_access_token connection.id) (λ calls. env.refresh calls connection.id)
    existing ← outside db (find_verified_existing r.id token) (λ calls. env.existing calls r token)
    file ← file_of d existing
    (verified, url) ← outside db (verify r.id file) (λ calls. env.verified calls r file)
    mark_delivered d r verified url
    share_recipients r.id verified token

  deliver_to : DeliveryRow → RecordingRow → Option ConnectionRow → Service db (Unit {0})
  deliver_to d r none = action_required db env d.id r.host_email "Google Drive is disconnected"
  deliver_to d r (some connection) =
      try_catch (hand_over d r connection) (handle_delivery_error db env d r connection.id)

  deliver_row : Option DeliveryRow → Option RecordingRow → Service db (Unit {0})
  unfolding deliver_to
  deliver_row (some d) (some r) =
      if not (is_owner env.owner d.lease_owner) || is_some r.local_deleted_at
      then pure tt
      else (do connection ← active_connection db r.host_user_id; deliver_to d r connection)
  deliver_row _ _ = pure tt

  recording_in : Option DeliveryRow → World db → Option RecordingRow
  recording_in none w = none
  recording_in (some d) w = recording_of db env d w

  unfoldable pub deliver : String → Service db (Unit {0})
  unfolding deliver_row recording_in
  deliver id w =
      let found = db.deliveries.find_unique id w.deliveries in
      deliver_row found (recording_in found w) w

  abbrev pub delivery_for : RecordingRow → World db → Option DeliveryRow
  delivery_for r w = db.deliveries.find_first (λ d. same d.recording_id r.id) (λ d. 0) w.deliveries

  abbrev pub undelivered : Option DeliveryRow → Bool
  undelivered none = true
  undelivered (some d) = not (is_delivered d.status)

  remind : RecordingRow → Service db (Unit {0})
  remind r = do
    outside db (notify_expiry r.host_email) (λ calls. ok (tt {0}))
    now ← clock db
    update_recording db r.id (λ row. record row { final_warning_sent_at = some now })

  unfoldable pub send_final_expiry_reminders : Service db (Unit {0})
  unfolding remind
  send_final_expiry_reminders w =
      each remind
        (db.recordings.find_many
          (λ r.
            is_completed r.status
            && (is_null r.local_deleted_at
                && (is_null r.final_warning_sent_at
                    && (later_than w.now r.local_expires_at
                        && (at_most (w.now + hours 24) r.local_expires_at
                            && undelivered (delivery_for r w))))))
          w.recordings)
        w

  expire_delivery : Option DeliveryRow → Service db (Unit {0})
  expire_delivery none = pure tt
  expire_delivery (some d) = when (not (is_delivered d.status)) (
      update_delivery db d.id (λ row. record row {
        status = DeliveryStatus.expired_undelivered;
        lease_owner = none;
        lease_until = none;
      }))

  -- The row's delivery is the one read with it. The `catch` logs.
  unfoldable pub delete_local_copy : RecordingRow × Option DeliveryRow → Service db (Unit {0})
  unfolding expire_delivery
  delete_local_copy (r, delivery) =
      try_catch
        (do
          outside db (delete_object r.object_key) (λ calls. env.deleted calls r.object_key)
          now ← clock db
          update_recording db r.id (λ row. record row { local_deleted_at = some now })
          expire_delivery delivery)
        (λ e. pure tt)

  -- The local copies to delete: ten at most in one cycle.
  abbrev pub is_due : ℕ → RecordingRow → Bool
  is_due now r =
      is_completed r.status && (is_null r.local_deleted_at && at_most now r.local_delete_after)

  unfoldable pub delete_expired_local_copies : Service db (Unit {0})
  delete_expired_local_copies w =
      each delete_local_copy
        (map (λ r. (r, delivery_for r w))
          (take 10 (db.recordings.find_many (is_due w.now) w.recordings)))
        w

  deliver_claimed : Option String → Service db (Unit {0})
  deliver_claimed none = pure tt
  deliver_claimed (some id) = deliver id

  unfoldable pub run_cycle : Service db (Unit {0})
  unfolding deliver_claimed
  run_cycle = do
    initialize_existing_grace db env
    send_final_expiry_reminders
    delete_expired_local_copies
    claimed ← claim_next_delivery db env
    deliver_claimed claimed
