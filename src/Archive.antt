-- ===== src/Archive.antt =====
-- The database's rows of recordings: apps/api/prisma/schema.prisma, as apps/api/src/rooms reads them.
-- A row carries the fields that the queries take from its room and its host.
use huddle.Prelude.{ℕ, String, Option, Bool, true, false}
use huddle.Prisma.{Delegate}

pub data RecordingStatus : Type 0 where
  starting active completed failed aborted : RecordingStatus

pub data DeliveryStatus : Type 0 where
  queued uploading action_required delivered expired_undelivered : DeliveryStatus

pub data ShareStatus : Type 0 where
  pending shared failed : ShareStatus

pub data ConnectionStatus : Type 0 where
  connected action_required disconnected : ConnectionStatus

pub record RecordingRow : Type 0 where
  pub id : String
  pub egress_id : String
  pub room_id : String
  pub room_slug : String
  pub host_user_id : String
  pub host_email : String
  pub status : RecordingStatus
  pub object_key : String
  pub started_by_identity : Option String
  pub size_bytes : Option ℕ
  pub duration_ms : Option ℕ
  pub error : Option String
  pub started_at : ℕ
  pub ended_at : Option ℕ
  pub local_expires_at : Option ℕ
  pub local_delete_after : Option ℕ
  pub local_deleted_at : Option ℕ
  pub drive_share_available : Bool
  pub final_warning_sent_at : Option ℕ

pub record DeliveryRow : Type 0 where
  pub id : String
  pub recording_id : String
  pub status : DeliveryStatus
  pub attempts : ℕ
  pub next_attempt_at : ℕ
  pub lease_owner : Option String
  pub lease_until : Option ℕ
  pub encrypted_upload_session : Option String
  pub upload_offset_bytes : ℕ
  pub drive_file_id : Option String
  pub drive_url : Option String
  pub delivered_at : Option ℕ
  pub last_error : Option String
  pub action_notified_at : Option ℕ

pub record RecipientRow : Type 0 where
  pub id : String
  pub recording_id : String
  pub user_id : String
  pub email : String
  pub name : Option String
  pub consented_at : ℕ
  pub status : ShareStatus
  pub permission_id : Option String
  pub error : Option String

pub record ConnectionRow : Type 0 where
  pub id : String
  pub user_id : String
  pub provider_email : Option String
  pub encrypted_refresh_token : Option String
  pub drive_folder_id : Option String
  pub status : ConnectionStatus
  pub disconnected_at : Option ℕ
  pub backfill_requested_at : Option ℕ
  pub created_at : ℕ

abbrev pub recording_key : RecordingRow → String
recording_key r = r.id

abbrev pub delivery_key : DeliveryRow → String
delivery_key r = r.id

abbrev pub recipient_key : RecipientRow → String
recipient_key r = r.id

-- The only provider is Google Drive, so a user has one connection.
abbrev pub connection_key : ConnectionRow → String
connection_key r = r.user_id

pub record Archive : Type 1 where
  pub recordings : Delegate RecordingRow recording_key
  pub deliveries : Delegate DeliveryRow delivery_key
  pub recipients : Delegate RecipientRow recipient_key
  pub connections : Delegate ConnectionRow connection_key

abbrev pub is_completed : RecordingStatus → Bool
is_completed RecordingStatus.completed = true
is_completed _ = false

-- `status: { in: ['starting', 'active'] }`
abbrev pub is_running : RecordingStatus → Bool
is_running RecordingStatus.starting = true
is_running RecordingStatus.active = true
is_running _ = false

abbrev pub is_delivered : DeliveryStatus → Bool
is_delivered DeliveryStatus.delivered = true
is_delivered _ = false

abbrev pub is_connected : ConnectionStatus → Bool
is_connected ConnectionStatus.connected = true
is_connected _ = false
