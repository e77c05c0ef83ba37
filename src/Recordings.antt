-- ===== src/Recordings.antt =====
-- apps/api/src/rooms/recordings.service.ts, with recordings.repo.ts: a recording's start and stop, and what
-- the other methods share. ISO times are instants. One request runs at a time.
pub mod Access
pub mod Events
pub mod Consents
pub mod Links
pub mod Starting
pub mod Stopping
pub mod Indicator
pub mod Recipients
use huddle.ShareConsents
use huddle.Prelude.{
  ℕ, ◌+◌, ◌*◌, ◌/◌, String, Option, none, some, List, [], ◌∷◌, map, keep, length, Bool, true, false,
  not, ◌&&◌, ◌||◌, if◌then◌else◌, is_some, same, leb, ltb,
}
use huddle.Records.{RecordingShareConsent}
use huddle.RoomState
use huddle.RoomState.{is_empty}
use huddle.Archive.{
  Archive, RecordingRow, RecordingStatus, DeliveryRow, DeliveryStatus, RecipientRow, ShareStatus,
  is_running, is_completed,
}
use huddle.Fault.{Exception, FaultCode, Result, ok, err}
use huddle.Service.{M, pure, throw, ◌>>=◌, ◌>>◌, try_catch, throw_if, when, each}
use huddle.DeliveryWorld.{active_connection, on_recordings, on_recipients}
use huddle.Delivery.{is_null, on_recording_completed}
use huddle.Metadata.{LivekitServer, set_recording_active, set_recording_state}
use huddle.DownloadToken.{sign}
use huddle.RecordingsWorld
use huddle.RecordingsWorld.{
  RoomRow, User, CallParticipant, RecordingCall, ensure_bucket, start_room_composite, stop_egress,
  get_object, World, Environment, Service, find_by_slug, find_by_id, find_user, with_identity,
  matches_account_binding,
}
use huddle.RecordingRows.{
  EgressStatus, FileResult, EgressInfo, map_status, is_ended, RecipientShares, RecordingSummary,
  or_else, is_truthy, or_keep, recipient_shares_of, not_yet, is_downloadable, newest_first, first,
  started_by, advanced,
}

module _ (db : Archive) (lk : LivekitServer) (env : Environment) where
  abbrev pub on_rows {ℓ} :
      {A : Type ℓ} → (db.recordings.Table → A × db.recordings.Table) → Service db lk A
  on_rows act = RecordingsWorld.on_archive db lk env (on_recordings db act)

  abbrev pub find_by_egress_id : String → World db lk → Option RecordingRow
  find_by_egress_id egress_id w =
      db.recordings.find_first (λ r. same r.egress_id egress_id) (λ r. 0) w.archive.recordings

  abbrev pub is_running_in : String → RecordingRow → Bool
  is_running_in room_id r = same r.room_id room_id && is_running r.status

  abbrev pub list_active_by_room : String → World db lk → List RecordingRow
  list_active_by_room room_id w =
      db.recordings.find_many (is_running_in room_id) w.archive.recordings

  abbrev pub find_active_by_room : String → World db lk → Option RecordingRow
  find_active_by_room room_id w = first (newest_first (list_active_by_room room_id w))

  abbrev pub basename : String → String
  basename key = or_else key (some (env.last_segment key))

  unfoldable pub to_summary :
      ℕ → RecordingRow → Option DeliveryRow → List RecipientRow → String → RecordingSummary
  to_summary now r delivery recipients slug = record {
    id = r.id;
    status = r.status;
    filename = basename r.object_key;
    size_bytes = r.size_bytes;
    duration_ms = r.duration_ms;
    started_at = r.started_at;
    ended_at = r.ended_at;
    error = r.error;
    local_expires_at = r.local_expires_at;
    local_deleted_at = r.local_deleted_at;
    delivery_status = elim delivery [ none ↦ none | some d ↦ some d.status ];
    drive_url = elim delivery [ none ↦ none | some d ↦ d.drive_url ];
    delivered_at = elim delivery [ none ↦ none | some d ↦ d.delivered_at ];
    recipient_shares = recipient_shares_of recipients;
    downloadable = is_downloadable now r;
    download_token = if is_downloadable now r then some (sign env.signing now slug r.id) else none;
  }

  -- Best effort.
  unfoldable pub set_indicator : String → Bool → Service db lk (Unit {0})
  set_indicator slug active =
      try_catch
        (RecordingsWorld.on_livekit db lk env (λ now. set_recording_active lk now slug active))
        (λ e. pure tt)

  unfoldable pub set_recording_indicator : String → String → Bool → Service db lk (Unit {0})
  set_recording_indicator slug recording_id share =
      try_catch
        (RecordingsWorld.on_livekit db lk env
          (λ now. set_recording_state lk now slug recording_id share))
        (λ e. pure tt)

  unfoldable pub new_recipient : String → User → ℕ → RecipientRow
  new_recipient recording_id user consented_at = record {
    id = env.fresh user.id;
    recording_id = recording_id;
    user_id = user.id;
    email = user.email;
    name = user.name;
    consented_at = consented_at;
    status = ShareStatus.pending;
    permission_id = none;
    error = none;
  }

  abbrev pub is_recipient : String → String → RecipientRow → Bool
  is_recipient recording_id user_id r = same r.recording_id recording_id && same r.user_id user_id

  -- The update of the upsert is empty.
  unfoldable pub upsert_recipient : String → User → ℕ → Service db lk (Unit {0})
  unfolding new_recipient
  upsert_recipient recording_id user consented_at = RecordingsWorld.on_archive db lk env (
      on_recipients db (λ t. (
        tt,
        elim (db.recipients.find_first (is_recipient recording_id user.id) (λ r. 0) t) [
          | none ↦ db.recipients.create (new_recipient recording_id user consented_at) t
          | some r ↦ t
        ],
      )))

  -- The participant is there and proves to be the user.
  abbrev pub is_bound : String → Option CallParticipant → Bool
  is_bound user_id none = false
  is_bound user_id (some p) =
      matches_account_binding env.account_binding_for user_id p.account_binding

  unfoldable pub seed_one :
      String → List CallParticipant → RecordingShareConsent → Service db lk (Unit {0})
  seed_one recording_id participants consent =
      if is_bound consent.user_id (with_identity consent.identity participants)
      then (elim (find_user consent.user_id env.users) [
        | none ↦ pure tt
        | some user ↦ upsert_recipient recording_id user consent.consented_at
      ])
      else pure tt

  unfoldable pub seed_in : String → String → Option String → Service db lk (Unit {0})
  unfolding seed_one
  seed_in slug recording_id none = pure tt
  seed_in slug recording_id (some sid) = if same sid "" then pure tt else (do
    consents ←
        RecordingsWorld.on_redis db lk env
          (λ now. ShareConsents.list_recording_share_consents now slug sid)
    participants ← RecordingsWorld.list_connected_participants db lk env slug
    each (seed_one recording_id participants) consents)

  unfoldable pub seed_recipients : String → String → Bool → Service db lk (Unit {0})
  unfolding seed_in
  seed_recipients slug recording_id share =
      if share
      then (do sid ← RecordingsWorld.get_room_sid db lk env slug; seed_in slug recording_id sid)
      else pure tt

  abbrev pub new_recording :
      String → RoomRow → String → String → Option String → Bool → ℕ → RecordingRow
  new_recording id room egress_id key identity share now = record {
    id = id;
    egress_id = egress_id;
    room_id = room.id;
    room_slug = room.slug;
    host_user_id = room.host_user_id;
    host_email = room.host_email;
    status = RecordingStatus.starting;
    object_key = key;
    started_by_identity = identity;
    size_bytes = none;
    duration_ms = none;
    error = none;
    started_at = now;
    ended_at = none;
    local_expires_at = none;
    local_delete_after = none;
    local_deleted_at = none;
    drive_share_available = share;
    final_warning_sent_at = none;
  }

  -- The storage must be there before Egress is asked.
  unfoldable pub require_storage : Service db lk (Unit {0})
  require_storage =
      try_catch (RecordingsWorld.call db lk env ensure_bucket env.bucket)
        (λ e. throw (Exception.service_unavailable FaultCode.upstream_unavailable))

  -- The indicator lights up at once; then come the recipients.
  unfoldable pub announce : String → RecordingRow → Bool → ℕ → Service db lk RecordingSummary
  announce slug rec share now = do
    set_recording_indicator slug rec.id share
    seed_recipients slug rec.id share
    pure (to_summary now rec none [] slug)

  -- What follows the two guards; `id` is the new row's.
  unfoldable pub begin_recording :
      String → RoomRow → String → Option String → Service db lk RecordingSummary
  begin_recording id room slug identity = do
    connection ← RecordingsWorld.on_archive db lk env (active_connection db room.host_user_id)
    now ← RecordingsWorld.clock db lk env
    let share = is_some connection
    let key = env.object_key slug now
    egress_id ← RecordingsWorld.call db lk env (start_room_composite slug key) env.egress_started
    let rec = new_recording id room egress_id key identity share now
    on_rows (λ t. (tt {0}, db.recordings.create rec t))
    announce slug rec share now

  unfoldable pub start_recording : String → String → Option String → Service db lk RecordingSummary
  start_recording id slug identity = do
    room ← RecordingsWorld.require_room db lk env slug
    (λ w.
        throw_if (not (is_empty (list_active_by_room room.id w)))
          (Exception.conflict FaultCode.recording_in_progress) w)
    require_storage
    begin_recording id room slug identity

  unfoldable pub start : String → String → Service db lk RecordingSummary
  start id slug = start_recording id slug none

  unfoldable pub start_for_participant : String → String → String → Service db lk RecordingSummary
  start_for_participant id slug identity = start_recording id slug (some identity)

  in_room : RoomRow → Option RecordingRow → Option RecordingRow
  in_room room none = none
  in_room room (some r) = if same r.room_id room.id then some r else none

  unfoldable pub require_recording : String → String → Service db lk RecordingRow
  unfolding in_room
  require_recording slug recording_id = do
    room ← RecordingsWorld.require_room db lk env slug
    (λ w.
        RecordingsWorld.or_throw db lk env
          (in_room room (db.recordings.find_unique recording_id w.archive.recordings))
          (Exception.not_found FaultCode.recording_not_found) w)

  latest : RecordingRow → Option RecordingRow → RecordingRow
  latest r none = r
  latest r (some fresh) = fresh

  unfoldable pub stop : String → String → Service db lk RecordingSummary
  unfolding latest
  stop slug recording_id = do
    rec ← require_recording slug recording_id
    try_catch (RecordingsWorld.call db lk env (stop_egress rec.egress_id) env.egress_stopped)
        (λ e. pure tt)
    (λ w. (
      ok (to_summary w.archive.now (latest rec (find_by_egress_id rec.egress_id w)) none [] slug),
      w,
    ))

  unfoldable pub stop_as_participant : String → CallParticipant → Service db lk RecordingSummary
  stop_as_participant slug participant = do
    room ← RecordingsWorld.require_room db lk env slug
    mine ← (λ w.
        RecordingsWorld.or_throw db lk env
          (first (keep (started_by participant.identity) (list_active_by_room room.id w)))
          (Exception.forbidden FaultCode.not_recording_owner) w)
    stop slug mine.id
