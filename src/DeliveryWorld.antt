-- ===== src/DeliveryWorld.antt =====
-- The world of apps/api/src/rooms/recording-delivery.service.ts: its state, and what answers it from
-- outside. The state is what every worker shares, and a worker's `owner` and `initialized`.
use huddle.Prelude.{
  ℕ, ◌*◌, String, Option, none, some, List, [], ◌∷◌, ◌++◌, Bool, if◌then◌else◌, same,
}
use huddle.Archive.{
  Archive, RecordingRow, DeliveryRow, ConnectionRow, ConnectionStatus, is_connected,
}
use huddle.Prisma.{update_unique}
use huddle.Fault.{Exception, Result, ok}
use huddle.Service.{M}

-- What the service asks of Google, the object storage and the mail server.
pub data OutsideCall : Type 0 where
  refresh_access_token : String → OutsideCall
  find_verified_existing verify share_reader : String → String → OutsideCall
  ensure_folder upload : String → OutsideCall
  delete_object : String → OutsideCall
  notify_action_required notify_expiry : String → OutsideCall

-- What happens while a file is uploaded, and how long after the last event: a session URL with the
-- bytes sent, or a heartbeat.
pub data UploadEvent : Type 0 where
  session : ℕ → Option String → ℕ → UploadEvent
  heartbeat_due : ℕ → UploadEvent

-- Google answers by what it was asked before. `share_reader` and the others may be rejected. The
-- notices are best effort and never throw. `encrypt` and `describe` are the service's crypto and the
-- redacted text of an error.
pub record Environment : Type 0 where
  pub local_retention_hours : ℕ
  pub delivered_retention_hours : ℕ
  pub owner : String
  pub refresh : List OutsideCall → String → Result String
  pub existing : List OutsideCall → RecordingRow → String → Result (Option String)
  pub folder : List OutsideCall → Result String
  pub sent : List OutsideCall → List UploadEvent × Result String
  pub verified : List OutsideCall → RecordingRow → String → Result (String × Option String)
  pub shared : List OutsideCall → String → String → Result (Option String)
  pub deleted : List OutsideCall → String → Result (Unit {0})
  pub encrypt : String → String
  pub decrypt : String → String
  pub drive_link : String → String
  pub describe : Exception → String

-- `deleting` are the users with an account deletion.
pub record World (db : Archive) : Type 0 where
  pub now : ℕ
  pub recordings : db.recordings.Table
  pub deliveries : db.deliveries.Table
  pub recipients : db.recipients.Table
  pub connections : db.connections.Table
  pub deleting : List String
  pub initialized : Bool
  pub outside : List OutsideCall

abbrev pub Service {ℓ} : Archive → Type ℓ → Type ℓ
Service db A = M (World db) A

abbrev pub lease_ms : ℕ
lease_ms = 120_000

abbrev pub hours : ℕ → ℕ
hours n = n * 3_600_000

module _ (db : Archive) where
  abbrev pub clock : Service db ℕ
  clock w = (ok w.now, w)

  abbrev pub on_recordings {ℓ} :
      {A : Type ℓ} → (db.recordings.Table → A × db.recordings.Table) → Service db A
  on_recordings act w = let (a, t) = act w.recordings in (ok a, record w { recordings = t })

  abbrev pub on_deliveries {ℓ} :
      {A : Type ℓ} → (db.deliveries.Table → A × db.deliveries.Table) → Service db A
  on_deliveries act w = let (a, t) = act w.deliveries in (ok a, record w { deliveries = t })

  abbrev pub on_recipients {ℓ} :
      {A : Type ℓ} → (db.recipients.Table → A × db.recipients.Table) → Service db A
  on_recipients act w = let (a, t) = act w.recipients in (ok a, record w { recipients = t })

  abbrev pub on_connections {ℓ} :
      {A : Type ℓ} → (db.connections.Table → A × db.connections.Table) → Service db A
  on_connections act w = let (a, t) = act w.connections in (ok a, record w { connections = t })

  -- The call is on record, whatever comes of it.
  abbrev pub outside {ℓ} : {A : Type ℓ} → OutsideCall → (List OutsideCall → Result A) → Service db A
  outside c answer w = (answer w.outside, record w { outside = w.outside ++ c ∷ [] })

  abbrev pub update_delivery : String → (DeliveryRow → DeliveryRow) → Service db (Unit {0})
  update_delivery id f = on_deliveries (λ t. (tt, update_unique db.deliveries id f t))

  abbrev pub update_recording : String → (RecordingRow → RecordingRow) → Service db (Unit {0})
  update_recording id f = on_recordings (λ t. (tt, update_unique db.recordings id f t))

-- storage-connections.service.ts
abbrev pub usable : Option ConnectionRow → Option ConnectionRow
usable none = none
usable (some c) =
    if is_connected c.status
    then elim c.encrypted_refresh_token [
      | none ↦ none
      | some t ↦ if same t "" then none else some c
    ]
    else none

module _ (db : Archive) where
  unfoldable pub active_connection : String → Service db (Option ConnectionRow)
  active_connection user_id w = (ok (usable (db.connections.find_unique user_id w.connections)), w)

  unfoldable pub mark_action_required : String → Service db (Unit {0})
  mark_action_required id w = (
    ok tt,
    record w {
      connections =
          (db.connections.update_many (λ c. same c.id id)
            (λ c. record c { status = ConnectionStatus.action_required }) w.connections).1;
    },
  )
