-- ===== src/Recordings/Links.antt =====
-- What a summary promises about the download.
use huddle.Prelude.{
  ℕ, String, none, some, [], ◌∷◌, true, false, if◌then◌else◌, ◌≡◌, ◌⊎◌, inl, inr, subst, arith,
  Bool-cases, ◌++◌,
}
use huddle.Archive.{Archive, RecordingRow, is_completed}
use huddle.Fault.{Exception, FaultCode, ok, err}
use huddle.Metadata.{LivekitServer}
use huddle.DownloadToken.{sign}
use huddle.DownloadToken.Binding.{verify-sign}
use huddle.RecordingsWorld
use huddle.RecordingsWorld.{
  RoomRow, User, CallParticipant, RecordingCall, ensure_bucket, start_room_composite, stop_egress,
  get_object, World, Environment, Service, find_by_slug, find_by_id, find_user, with_identity,
  matches_account_binding,
}
use huddle.RecordingRows.{is_downloadable}
use huddle.Recordings.{basename, to_summary, require_recording}
use huddle.Recordings.Access.{download, summary_of}
use huddle.DownloadToken.{can_activate}

module _ (db : Archive) (lk : LivekitServer) (env : Environment) where
  -- What `download` does with a recording of the room.
  download_of :
      (slug id : String) (room : RoomRow) (r : RecordingRow) (w : World db lk)
      → find_by_slug slug env.rooms ≡ some room
      → db.recordings.find_unique id w.archive.recordings ≡ some r
      → r.room_id ≡ room.id
      → download db lk env slug id w ≡ (
          if is_downloadable w.archive.now r
          then (
            elim (env.object w.calls) [
              | ok (body, size) ↦ ok (body, size, basename db lk env r.object_key)
              | err e ↦ err e
            ],
            record w { calls = w.calls ++ get_object r.object_key ∷ [] },
          )
          else (
            err (
                if is_completed r.status
                then Exception.gone FaultCode.recording_expired
                else Exception.conflict FaultCode.recording_not_ready),
            w,
          ))
  unfolding download require_recording RecordingsWorld.require_room
  download_of slug id room r w there found here = ground arith

  can_activate-own :
      (now : ℕ) (slug id : String)
      → can_activate env.signing now slug id (some (sign env.signing now slug id)) ≡ ok true
  unfolding can_activate
  can_activate-own now slug id = ground (arith, verify-sign env.signing now now slug slug id id)

  -- The list of a room calls a recording downloadable exactly when, at that instant, its download asks
  -- the object storage for the recording; then, and only then, the summary carries a link, and the
  -- guard of the download's route lets that link in. Otherwise the download is refused as not ready,
  -- or as gone if the recording is complete, and nothing changes.
  pub summary_of-download :
      (slug id : String) (room : RoomRow) (r : RecordingRow) (w : World db lk)
      → find_by_slug slug env.rooms ≡ some room
      → db.recordings.find_unique id w.archive.recordings ≡ some r
      → r.room_id ≡ room.id
      → let summary = summary_of db lk env w slug r in
        let refusal =
          if is_completed r.status
          then Exception.gone FaultCode.recording_expired
          else Exception.conflict FaultCode.recording_not_ready in
        (((summary.downloadable ≡ true)
            × ((link : String) × (summary.download_token ≡ some link)
                × (can_activate env.signing w.archive.now slug id (some link) ≡ ok true))
            × ((download db lk env slug id w).1.calls ≡ w.calls ++ get_object r.object_key ∷ []))
          ⊎ ((summary.downloadable ≡ false)
              × (summary.download_token ≡ none)
              × (download db lk env slug id w ≡ (err refusal, w))))
  unfolding summary_of to_summary
  summary_of-download slug id room r w there found here =
      let e = download_of slug id room r w there found here in
      let keyed = db.recordings.find_unique_key id w.archive.recordings r found in
      elim (Bool-cases (is_downloadable w.archive.now r)) [
        | inl opened ↦ inl (
          opened,
          (
            sign env.signing w.archive.now slug r.id,
            ground (arith, opened),
            subst
                (λ i.
                  can_activate env.signing w.archive.now slug i
                    (some (sign env.signing w.archive.now slug r.id))
                  ≡ ok true)
                keyed (can_activate-own w.archive.now slug r.id),
          ),
          ground (arith, e, opened),
        )
        | inr shut ↦ inr (shut, ground (arith, shut), ground (arith, e, shut))
      ]
