-- ===== src/Tests/Archive.antt =====
-- A database with one recording and its delivery, and the worlds of the delivery and the recordings.
use huddle.Prelude.{
  ◌≡◌, ◌≢◌, arith, String, Option, none, some, List, [], true, false, same, if◌then◌else◌,
}
use huddle.Archive.{
  Archive, RecordingRow, RecordingStatus, DeliveryRow, DeliveryStatus, recording_key, delivery_key,
  recipient_key, connection_key,
}
use huddle.Fault.{Exception, ok, err}
use huddle.Metadata.{LivekitServer, RoomMetadata}
use huddle.DeliveryWorld
use huddle.Tests.Tables.{listed}

abbrev pub tables : Archive
tables = record {
  recordings = listed recording_key;
  deliveries = listed delivery_key;
  recipients = listed recipient_key;
  connections = listed connection_key;
}

abbrev pub a_recording : RecordingRow
a_recording = record {
  id = "rec";
  egress_id = "EG_1";
  room_id = "room";
  room_slug = "abc-defg-hij";
  host_user_id = "host";
  host_email = "host@example.org";
  status = RecordingStatus.completed;
  object_key = "abc-defg-hij/1.mp4";
  started_by_identity = some "ada";
  size_bytes = some 7;
  duration_ms = some 1_000;
  error = none;
  started_at = 1_000;
  ended_at = some 2_000;
  local_expires_at = some 900_000;
  local_delete_after = some 900_000;
  local_deleted_at = none;
  drive_share_available = true;
  final_warning_sent_at = none;
}

abbrev pub running : RecordingRow
running = record a_recording {
  status = RecordingStatus.active;
  local_expires_at = none;
  local_delete_after = none;
}

abbrev pub a_delivery : DeliveryRow
a_delivery = record {
  id = "del";
  recording_id = "rec";
  status = DeliveryStatus.queued;
  attempts = 0;
  next_attempt_at = 3_000;
  lease_owner = none;
  lease_until = none;
  encrypted_upload_session = none;
  upload_offset_bytes = 0;
  drive_file_id = none;
  drive_url = none;
  delivered_at = none;
  last_error = none;
  action_notified_at = none;
}

abbrev pub taken : DeliveryRow
taken = record a_delivery {
  status = DeliveryStatus.uploading;
  lease_owner = some "other";
  lease_until = some 500_000;
}

abbrev pub worker : DeliveryWorld.Environment
worker = record {
  local_retention_hours = 24;
  delivered_retention_hours = 1;
  owner = "me";
  refresh = λ calls id. ok "token";
  existing = λ calls r token. ok none;
  folder = λ calls. ok "folder";
  sent = λ calls. ([], ok "file");
  verified = λ calls r file. ok (file, none);
  shared = λ calls file email. ok none;
  deleted = λ calls key. err Exception.failure;
  encrypt = λ s. s;
  decrypt = λ s. s;
  drive_link = λ file. file;
  describe = λ e. "failed";
}

abbrev pub archive_with : List RecordingRow → List DeliveryRow → DeliveryWorld.World tables
archive_with recordings deliveries = record {
  now = 5_000;
  recordings = recordings;
  deliveries = deliveries;
  recipients = [];
  connections = [];
  deleting = [];
  initialized = false;
  outside = [];
}

-- A LiveKit with the one room, whose metadata is kept.
abbrev pub lookup : String → RoomMetadata → Option (String × Option RoomMetadata)
lookup room m = if same room "abc-defg-hij" then some ("RM_1", some m) else none

abbrev pub store : String → RoomMetadata → RoomMetadata → RoomMetadata
store room m s = if same room "abc-defg-hij" then m else s

pub store_read :
    (room : String) (m s : RoomMetadata) (sid : String) (before : Option RoomMetadata)
    → lookup room s ≡ some (sid, before)
    → lookup room (store room m s) ≡ some (sid, some m)
store_read room m s sid before there = ground arith

pub store_other :
    (room other : String) (m s : RoomMetadata)
    → other ≢ room
    → lookup other (store room m s) ≡ lookup other s
store_other room other m s apart = ground arith

abbrev pub one_room : LivekitServer
one_room = record {
  State = RoomMetadata;
  list_rooms = lookup;
  update_room_metadata = λ room m s. (ok tt, store room m s);
  list_rooms-update_room_metadata =
      λ room m s sid before there accepted. store_read room m s sid before there;
  list_rooms-other = store_other;
}
