-- ===== src/Recordings/Access.antt =====
-- The lists and the download of apps/api/src/rooms/recordings.service.ts.
use huddle.Prelude.{
  ℕ, String, Option, none, some, List, map, Bool, false, not, ◌||◌, is_some, same, leb,
}
use huddle.Archive.{Archive, RecordingRow, DeliveryRow, RecipientRow, is_completed}
use huddle.Fault.{Exception, FaultCode, ok}
use huddle.Service.{pure, ◌>>=◌, ◌>>◌, throw_if}
use huddle.Metadata.{LivekitServer}
use huddle.RecordingsWorld
use huddle.RecordingsWorld.{
  RoomRow, User, CallParticipant, RecordingCall, ensure_bucket, start_room_composite, stop_egress,
  get_object, World, Environment, Service, find_by_slug, find_by_id, find_user, with_identity,
  matches_account_binding,
}
use huddle.RecordingRows.{RecordingSummary, newest_first}
use huddle.Recordings.{basename, to_summary, require_recording}

module _ (db : Archive) (lk : LivekitServer) (env : Environment) where
  delivery_of : RecordingRow → World db lk → Option DeliveryRow
  delivery_of r w =
      db.deliveries.find_first (λ d. same d.recording_id r.id) (λ d. 0) w.archive.deliveries

  recipients_of : RecordingRow → World db lk → List RecipientRow
  recipients_of r w = db.recipients.find_many (λ x. same x.recording_id r.id) w.archive.recipients

  unfoldable pub summary_of : World db lk → String → RecordingRow → RecordingSummary
  unfolding delivery_of recipients_of
  summary_of w slug r =
      to_summary db lk env w.archive.now r (delivery_of r w) (recipients_of r w) slug

  unfoldable pub list : String → Service db lk (List RecordingSummary)
  list slug = do
    room ← RecordingsWorld.require_room db lk env slug
    (λ w. (
      ok (
          map (summary_of w slug) (
            newest_first
              (db.recordings.find_many (λ r. same r.room_id room.id) w.archive.recordings))),
      w,
    ))

  unfoldable pub list_mine : String → Service db lk (List (String × RecordingSummary))
  list_mine host_user_id w = (
    ok (
        map (λ r. (r.room_slug, summary_of w r.room_slug r))
          (newest_first (
            db.recordings.find_many (λ r. same r.host_user_id host_user_id) w.archive.recordings))),
    w,
  )

  -- `localDeletedAt || (localDeleteAfter && localDeleteAfter <= now)`
  abbrev pub has_expired : ℕ → RecordingRow → Bool
  has_expired now r =
      is_some r.local_deleted_at || elim r.local_delete_after [ none ↦ false | some t ↦ leb t now ]

  unfoldable pub download : String → String → Service db lk (String × Option ℕ × String)
  download slug recording_id = do
    rec ← require_recording db lk env slug recording_id
    throw_if (not (is_completed rec.status)) (Exception.conflict FaultCode.recording_not_ready)
    now ← RecordingsWorld.clock db lk env
    throw_if (has_expired now rec) (Exception.gone FaultCode.recording_expired)
    (body, size) ← RecordingsWorld.call db lk env (get_object rec.object_key) env.object
    pure (body, size, basename db lk env rec.object_key)
