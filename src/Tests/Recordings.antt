-- ===== src/Tests/Recordings.antt =====
-- Recordings of a small room.
use Prim.Native.String.{◌∷◌ as ◌∷ᵗ◌}
use huddle.ShareConsents
use huddle.Prelude.{
  ℕ, ◌≡◌, ◌≤◌, ◌↔◌, ◌⊎◌, inr, ◌+◌, arith, zero, suc, refl, String, String-discrete, none, some,
  List, [], ◌∷◌, ◌++◌, true, false, ◌&&◌, same,
}
use huddle.Redis.{empty}
use huddle.Records.{RecordingShareConsent}
use huddle.Archive.{RecordingRow, RecordingStatus, is_running}
use huddle.Prisma.{holds}
use huddle.Fault.{Exception, FaultCode, ok, err}
use huddle.Metadata
use huddle.Metadata.{no_keys, is_recording, parsed, is_flag}
use huddle.Metadata.Keys.{set_recording_active_lem}
use huddle.DownloadToken.{Signing, sign, can_activate, index_of_dot}
use huddle.DownloadToken.Text.{size}
use huddle.DownloadToken.Binding.{can_activate-sign}
use huddle.RecordingsWorld.{
  RoomRow, User, CallParticipant, ensure_bucket, start_room_composite, stop_egress, get_object,
  World, Environment, find_by_slug, find_user, with_identity,
}
use huddle.RecordingRows.{EgressInfo, EgressStatus, started_by}
use huddle.Recordings
use huddle.Recordings.Access.{download, summary_of}
use huddle.Recordings.Events.{handle_egress_event}
use huddle.Recordings.Consents.{on_participant_joined, give_recording_share_consent, is_host}
use huddle.Recordings.Links.{summary_of-download}
use huddle.Recordings.Starting.{start_recording_lem}
use huddle.Recordings.Stopping.{stop_as_participant_lem}
use huddle.Recordings.Indicator.{handle_egress_event-IsShown, IsShown}
use huddle.Recordings.Recipients.{on_participant_joined_lem, give_recording_share_consent_lem}
use huddle.Tests.Archive.{tables, a_recording, running, worker, archive_with, one_room}

abbrev slug : String
slug = "abc-defg-hij"

abbrev room : RoomRow
room = record { id = "room"; slug = slug; host_user_id = "host"; host_email = "host@example.org" }

abbrev ada : CallParticipant
ada = record { identity = "ada"; role = none; account_binding = some "u-ada" }

abbrev ada_user : User
ada_user = record { id = "u-ada"; email = "ada@example.org"; name = some "Ada" }

-- An instant is written as so many ones, and a recording is its own signature.
abbrev ones : ℕ → String
ones zero = ""
ones (suc n) = "1" ∷ᵗ ones n

size-ones : (n : ℕ) → some (size (ones n)) ≡ some n
size-ones zero = refl
size-ones (suc n) = ground (arith, size-ones n)

index_of_dot-ones : (n : ℕ) → index_of_dot (ones n) ≡ none
index_of_dot-ones zero = refl
index_of_dot-ones (suc n) = ground (arith, index_of_dot-ones n)

abbrev by_id : Signing
by_id = record {
  hmac = λ room id exp. id;
  number_text = ones;
  read_number = λ s. some (size s);
  read_number-number_text = size-ones;
  index_of_dot-number_text = index_of_dot-ones;
}

abbrev env : Environment
env = record {
  delivery = worker;
  rooms = room ∷ [];
  users = ada_user ∷ [];
  bucket = λ calls. ok tt;
  egress_started = λ calls. ok "EG_2";
  egress_stopped = λ calls. ok tt;
  object = λ calls. ok ("body", some 7);
  room_listing = λ name. ok tt;
  participants = λ slug. ok (ada ∷ []);
  account_binding_for = λ user. user;
  signing = by_id;
  object_key = λ slug now. slug;
  last_segment = λ key. key;
  fresh = λ user. user;
}

abbrev world_with : List RecordingRow → World tables one_room
world_with rows = record {
  archive = archive_with rows [];
  redis = empty;
  livekit = no_keys;
  calls = [];
}

set_recording_active_lem_example :
    let s' = (Metadata.set_recording_active one_room 9 slug true no_keys).1 in
    (is_recording one_room slug s' ≡ true)
    × (((parsed (one_room.list_rooms slug s')).recording_started_at ≡ some 9)
        × ((parsed (one_room.list_rooms slug s')).recording_id ≡ none)
        × ((parsed (one_room.list_rooms slug s')).recording_share_available ≡ none)
        × ((parsed (one_room.list_rooms slug s')).remote_control ≡ none)
        × ((parsed (one_room.list_rooms slug s')).mute_on_entry ≡ none)
        × ((parsed (one_room.list_rooms slug s')).started_at ≡ none)
        × ((parsed (one_room.list_rooms slug s')).maintenance ≡ none)
        × ((parsed (one_room.list_rooms slug s')).others ≡ [])
        × ((parsed (one_room.list_rooms slug s')).server_time ≡ some 9))
unfolding String-discrete Metadata.set_recording_active Metadata.mutate_room_metadata
    Metadata.recording_active_mutation Metadata.write
set_recording_active_lem_example =
    set_recording_active_lem one_room 9 slug true no_keys ("RM_1", some no_keys) refl refl

abbrev other : String
other = "other"

can_activate-sign_example :
    (can_activate by_id 200_000 slug "other" (some (sign by_id 0 slug "rec")) ≡ ok true)
    ↔ ((slug ≡ slug) × (a_recording.id ≡ other) × (200_000 ≤ 0 + 300_000))
can_activate-sign_example =
    can_activate-sign by_id 0 200_000 slug slug "rec" "other" (λ e. (refl, e))

summary_of-download_example :
    let w = world_with (a_recording ∷ []) in
    let summary = summary_of tables one_room env w slug a_recording in
    (((summary.downloadable ≡ true)
        × ((link : String) × (summary.download_token ≡ some link)
            × (can_activate env.signing 5_000 slug "rec" (some link) ≡ ok true))
        × ((download tables one_room env slug "rec" w).1.calls
            ≡ [] ++ get_object "abc-defg-hij/1.mp4" ∷ []))
      ⊎ ((summary.downloadable ≡ false)
          × (summary.download_token ≡ none)
          × (download tables one_room env slug "rec" w
              ≡ (err (Exception.gone FaultCode.recording_expired), w))))
unfolding String-discrete
summary_of-download_example =
    summary_of-download tables one_room env slug "rec" room a_recording
      (world_with (a_recording ∷ [])) refl refl refl

stop_as_participant_lem_example :
    let w = world_with (running ∷ []) in
    let step = Recordings.stop_as_participant tables one_room env slug ada w in
    (step ≡ (err (Exception.forbidden FaultCode.not_recording_owner), w))
    ⊎ ((r : RecordingRow) × (tables.recordings.find_unique r.id (running ∷ []) ≡ some r)
        × (Recordings.is_running_in tables one_room env "room" r ≡ true)
        × (started_by "ada" r ≡ true)
        × (step.1 ≡ record w { calls = [] ++ stop_egress r.egress_id ∷ [] }))
unfolding String-discrete
stop_as_participant_lem_example =
    stop_as_participant_lem tables one_room env slug ada room (world_with (running ∷ [])) refl

abbrev completed : EgressInfo
completed = record {
  egress_id = "EG_1";
  status = EgressStatus.egress_complete;
  file = none;
  error = none;
  room_name = some slug;
}

abbrev lit : World tables one_room
lit = record (world_with (running ∷ [])) { livekit = record no_keys { recording = some true } }

handle_egress_event-IsShown_example :
    IsShown tables one_room env room (handle_egress_event tables one_room env "d" completed lit).1
unfolding String-discrete is_recording
handle_egress_event-IsShown_example =
    handle_egress_event-IsShown tables one_room env "d" room completed lit
      ("RM_1", some lit.livekit) refl refl refl (λ m s. refl) (inr refl)

start_recording_lem_example :
    let w = world_with (a_recording ∷ []) in
    let w' = (Recordings.start_recording tables one_room env "new" slug (some "ada") w).1 in
    ((rec : RecordingRow) × (tables.recordings.find_unique "new" w'.archive.recordings ≡ some rec)
      × (rec.status ≡ RecordingStatus.starting)
      × (rec.room_id ≡ room.id)
      × (rec.started_by_identity ≡ some "ada")
      × (w'.calls ≡ ([] ++ ensure_bucket ∷ []) ++ start_room_composite slug rec.object_key ∷ []))
    × (is_recording one_room slug w'.livekit ≡ true)
    × ((holds
            (λ r. same r.room_id "room" && is_running r.status)
            (tables.recordings.find_unique "new" w'.archive.recordings)
          ≡ false)
        ⊎ (Recordings.start_recording tables one_room env "next" slug none w'
            ≡ (err (Exception.conflict FaultCode.recording_in_progress), w')))
unfolding String-discrete
start_recording_lem_example =
    start_recording_lem tables one_room env "new" "next" slug (some "ada") none room "EG_2"
      (world_with (a_recording ∷ []))
      (Recordings.start_recording tables one_room env "new" slug (some "ada")
        (world_with (a_recording ∷ []))).1
      ("RM_1", some no_keys) refl refl refl refl refl refl (λ m s. refl)

on_participant_joined_lem_example :
    let w = world_with (running ∷ []) in
    let w' = (on_participant_joined tables one_room env slug "RM_1" "ada" w).1 in
    (w'.archive ≡ w.archive)
    ⊎ ((c : RecordingShareConsent) × (active : RecordingRow) × (r : RoomRow) × (user : User)
        × ((ShareConsents.get_recording_share_consent_by_identity 5_000 slug "RM_1" "ada" empty).0
            ≡ some c)
        × (find_by_slug slug env.rooms ≡ some r)
        × (Recordings.find_active_by_room tables one_room env r.id w ≡ some active)
        × (active.drive_share_available ≡ true)
        × (find_user c.user_id env.users ≡ some user)
        × ((ps : List CallParticipant) × (env.participants slug ≡ ok ps)
            × (Recordings.is_bound tables one_room env c.user_id (with_identity "ada" ps) ≡ true))
        × (w'.archive
            ≡ (Recordings.upsert_recipient tables one_room env active.id user c.consented_at
                w).1.archive))
on_participant_joined_lem_example =
    on_participant_joined_lem tables one_room env slug "RM_1" "ada" (world_with (running ∷ []))

give_recording_share_consent_lem_example :
    let w = world_with (running ∷ []) in
    let step = give_recording_share_consent tables one_room env slug ada_user ada w in
    ((step ≡ (err (Exception.forbidden FaultCode.recording_share_not_allowed), w))
      ⊎ (step ≡ (err (Exception.conflict FaultCode.recording_share_unavailable), w))
      ⊎ ((e : Exception) × (env.room_listing slug ≡ err e) × (step ≡ (err e, w))))
    ⊎ ((active : RecordingRow) × (at : ℕ) × (Recordings.find_active_by_room tables one_room env
            "room" w
          ≡ some active)
        × (active.drive_share_available ≡ true)
        × (is_host tables one_room env none ≡ false)
        × (Recordings.is_bound tables one_room env "u-ada" (some ada) ≡ true)
        × (Recordings.is_bound tables one_room env "u-ada" (with_identity "ada" (ada ∷ [])) ≡ true)
        × (step.0 ≡ ok tt)
        × (step.1.archive
            ≡ (Recordings.upsert_recipient tables one_room env active.id ada_user at w).1.archive))
unfolding String-discrete
give_recording_share_consent_lem_example =
    give_recording_share_consent_lem tables one_room env slug ada_user ada room (ada ∷ [])
      (world_with (running ∷ [])) refl refl
