-- ===== src/Recordings/Consents.antt =====
-- The consents to sharing of apps/api/src/rooms/recordings.service.ts.
use huddle.ShareConsents
use huddle.Prelude.{String, Option, none, some, Bool, false, not, ◌||◌, if◌then◌else◌, same}
use huddle.Records.{RecordingShareConsent}
use huddle.Archive.{Archive, RecordingRow}
use huddle.Fault.{Exception, FaultCode}
use huddle.Service.{pure, throw, ◌>>=◌, ◌>>◌, throw_if}
use huddle.Metadata.{LivekitServer}
use huddle.RecordingsWorld
use huddle.RecordingsWorld.{
  RoomRow, User, CallParticipant, RecordingCall, ensure_bucket, start_room_composite, stop_egress,
  get_object, World, Environment, Service, find_by_slug, find_by_id, find_user, with_identity,
  matches_account_binding,
}
use huddle.Recordings.{find_active_by_room, is_bound, upsert_recipient}

module _ (db : Archive) (lk : LivekitServer) (env : Environment) where
  abbrev pub offers_sharing : Option RecordingRow → Option RecordingRow
  offers_sharing none = none
  offers_sharing (some r) = if r.drive_share_available then some r else none

  unfoldable pub is_host : Option String → Bool
  is_host none = false
  is_host (some role) = same role "host"

  abbrev pub not_allowed : Exception
  not_allowed = Exception.forbidden FaultCode.recording_share_not_allowed

  abbrev pub unavailable : Exception
  unavailable = Exception.conflict FaultCode.recording_share_unavailable

  unfoldable pub give_in :
      String
      → User
      → CallParticipant
      → Option String
      → Option CallParticipant
      → Option RecordingRow
      → Service db lk (Unit {0})
  give_in slug user participant (some sid) connected (some active) =
      if same sid "" || not (is_bound db lk env user.id connected) then throw unavailable else (do
        consent ← RecordingsWorld.on_redis db lk env (λ now.
            ShareConsents.add_recording_share_consent now (record {
              room = slug;
              room_sid = sid;
              user_id = user.id;
              identity = participant.identity;
              account_binding = elim participant.account_binding [ none ↦ "" | some b ↦ b ];
              consented_at = now;
            }))
        upsert_recipient db lk env active.id user consent.consented_at)
  give_in _ _ _ _ _ _ = throw unavailable

  unfoldable pub give_recording_share_consent :
      String → User → CallParticipant → Service db lk (Unit {0})
  unfolding give_in is_host
  give_recording_share_consent slug user participant = do
    room ← RecordingsWorld.require_room db lk env slug
    throw_if (is_host participant.role || not (is_bound db lk env user.id (some participant)))
        not_allowed
    sid ← RecordingsWorld.get_room_sid db lk env slug
    participants ← RecordingsWorld.list_connected_participants db lk env slug
    (λ w.
        give_in slug user participant sid (with_identity participant.identity participants)
          (offers_sharing (find_active_by_room db lk env room.id w)) w)

  unfoldable pub join_recording :
      String → String → RecordingShareConsent → Option RecordingRow → Service db lk (Unit {0})
  join_recording slug identity consent none = pure tt
  join_recording slug identity consent (some active) = do
    participants ← RecordingsWorld.list_connected_participants db lk env slug
    elim (find_user consent.user_id env.users) [
      | none ↦ pure tt
      | some user ↦
          if is_bound db lk env consent.user_id (with_identity identity participants)
          then upsert_recipient db lk env active.id user consent.consented_at
          else pure tt
    ]

  unfoldable pub join_as :
      String → String → RecordingShareConsent → Option RoomRow → Service db lk (Unit {0})
  join_as slug identity consent none w = pure tt w
  join_as slug identity consent (some room) w =
      join_recording slug identity consent
        (offers_sharing (find_active_by_room db lk env room.id w)) w

  unfoldable pub on_participant_joined : String → String → String → Service db lk (Unit {0})
  unfolding join_as join_recording
  on_participant_joined slug sid identity = do
    consent ←
        RecordingsWorld.on_redis db lk env
          (λ now. ShareConsents.get_recording_share_consent_by_identity now slug sid identity)
    elim consent [ none ↦ pure tt | some c ↦ join_as slug identity c (find_by_slug slug env.rooms) ]
