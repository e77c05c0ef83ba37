-- ===== src/RecordingRows.antt =====
-- What apps/api/src/rooms/recordings.service.ts reads from an egress event and answers about a recording.
use huddle.Prelude.{
  ℕ, ◌+◌, ◌/◌, String, Option, none, some, List, [], ◌∷◌, map, keep, length, Bool, true, false,
  ◌&&◌, if◌then◌else◌, same, leb, ltb,
}
use huddle.Archive.{
  RecordingRow, RecordingStatus, DeliveryStatus, RecipientRow, ShareStatus, is_completed,
}
use huddle.Delivery.{is_null}

-- The egress event of livekit-server-sdk.
pub data EgressStatus : Type 0 where
  egress_starting egress_active egress_ending egress_complete : EgressStatus
  egress_failed egress_aborted egress_limit_reached : EgressStatus

pub record FileResult : Type 0 where
  pub size : Option ℕ
  pub duration : Option ℕ

pub record EgressInfo : Type 0 where
  pub egress_id : String
  pub status : EgressStatus
  pub file : Option FileResult
  pub error : Option String
  pub room_name : Option String

unfoldable pub map_status : EgressStatus → RecordingStatus
map_status EgressStatus.egress_starting = RecordingStatus.starting
map_status EgressStatus.egress_active = RecordingStatus.active
map_status EgressStatus.egress_ending = RecordingStatus.active
map_status EgressStatus.egress_complete = RecordingStatus.completed
map_status EgressStatus.egress_aborted = RecordingStatus.aborted
map_status _ = RecordingStatus.failed

-- `status === 'completed' || status === 'failed' || status === 'aborted'`
abbrev pub is_ended : RecordingStatus → Bool
is_ended RecordingStatus.completed = true
is_ended RecordingStatus.failed = true
is_ended RecordingStatus.aborted = true
is_ended _ = false

pub record RecipientShares : Type 0 where
  pub pending : ℕ
  pub shared : ℕ
  pub failed : ℕ
  pub failures : List String

pub record RecordingSummary : Type 0 where
  pub id : String
  pub status : RecordingStatus
  pub filename : String
  pub size_bytes : Option ℕ
  pub duration_ms : Option ℕ
  pub started_at : ℕ
  pub ended_at : Option ℕ
  pub error : Option String
  pub local_expires_at : Option ℕ
  pub local_deleted_at : Option ℕ
  pub delivery_status : Option DeliveryStatus
  pub drive_url : Option String
  pub delivered_at : Option ℕ
  pub recipient_shares : RecipientShares
  pub downloadable : Bool
  pub download_token : Option String

-- The truthy reading of a text.
abbrev pub or_else : String → Option String → String
or_else other none = other
or_else other (some s) = if same s "" then other else s

abbrev pub is_truthy : Option String → Option String
is_truthy none = none
is_truthy (some s) = if same s "" then none else some s

abbrev pub or_keep {ℓ} : {A : Type ℓ} → Option A → Option A → Option A
or_keep none old = old
or_keep (some a) old = some a

abbrev is_share : ShareStatus → RecipientRow → Bool
is_share ShareStatus.pending r = elim r.status [ ShareStatus.pending ↦ true | _ ↦ false ]
is_share ShareStatus.shared r = elim r.status [ ShareStatus.shared ↦ true | _ ↦ false ]
is_share ShareStatus.failed r = elim r.status [ ShareStatus.failed ↦ true | _ ↦ false ]

abbrev pub recipient_shares_of : List RecipientRow → RecipientShares
recipient_shares_of rs = record {
  pending = length (keep (is_share ShareStatus.pending) rs);
  shared = length (keep (is_share ShareStatus.shared) rs);
  failed = length (keep (is_share ShareStatus.failed) rs);
  failures =
      map (λ r. or_else "Google Drive could not grant access" r.error)
        (keep (is_share ShareStatus.failed) rs);
}

-- `!deleteAfter || deleteAfter > now`
abbrev pub not_yet : ℕ → Option ℕ → Bool
not_yet now none = true
not_yet now (some t) = ltb now t

abbrev pub is_downloadable : ℕ → RecordingRow → Bool
is_downloadable now r =
    is_completed r.status && (is_null r.local_deleted_at && not_yet now r.local_delete_after)

-- A list in the order of `startedAt`, the latest first.
abbrev pub insert_newest : RecordingRow → List RecordingRow → List RecordingRow
insert_newest r [] = r ∷ []
insert_newest r (s ∷ rs) =
    let rest = insert_newest r rs in if leb s.started_at r.started_at then r ∷ s ∷ rs else s ∷ rest

abbrev pub newest_first : List RecordingRow → List RecordingRow
newest_first [] = []
newest_first (r ∷ rs) = insert_newest r (newest_first rs)

abbrev pub first {ℓ} : {A : Type ℓ} → List A → Option A
first [] = none
first (x ∷ xs) = some x

abbrev pub started_by : String → RecordingRow → Bool
started_by identity r = elim r.started_by_identity [ none ↦ false | some s ↦ same s identity ]

-- The row that an event leaves.
abbrev pub advanced : RecordingStatus → ℕ → EgressInfo → RecordingRow → RecordingRow
advanced status now info r = record r {
  status = status;
  size_bytes = or_keep (elim info.file [ none ↦ none | some f ↦ f.size ]) r.size_bytes;
  duration_ms =
      or_keep
        (elim info.file [
          | none ↦ none
          | some f ↦ elim f.duration [ none ↦ none | some ns ↦ some ((ns + 500_000) / 1_000_000) ]
        ])
        r.duration_ms;
  error = or_keep (is_truthy info.error) r.error;
  ended_at = if is_ended status then some now else r.ended_at;
}
