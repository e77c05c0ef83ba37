-- ===== src/Recordings/Stopping.antt =====
-- Who stops a recording.
use huddle.Prelude.{
  String, some, List, [], ◌∷◌, keep, Bool, true, ◌≡◌, ◌⊎◌, inl, inr, subst, All, arith, Bool-cases,
  Option-cases, ◌++◌,
}
use huddle.Archive.{Archive, RecordingRow}
use huddle.Fault.{Exception, FaultCode, err}
use huddle.Metadata.{LivekitServer}
use huddle.RecordingsWorld
use huddle.RecordingsWorld.{
  RoomRow, User, CallParticipant, RecordingCall, ensure_bucket, start_room_composite, stop_egress,
  get_object, World, Environment, Service, find_by_slug, find_by_id, find_user, with_identity,
  matches_account_binding,
}
use huddle.RecordingRows.{first, started_by}
use huddle.Recordings.{
  is_running_in, stop, stop_as_participant, list_active_by_room, require_recording,
}

module _ (db : Archive) (lk : LivekitServer) (env : Environment) where
  -- What `stop` does with a recording of the room: Egress is asked, whatever it answers.
  stop_of :
      (slug id : String) (room : RoomRow) (r : RecordingRow) (w : World db lk)
      → find_by_slug slug env.rooms ≡ some room
      → db.recordings.find_unique id w.archive.recordings ≡ some r
      → r.room_id ≡ room.id
      → (stop db lk env slug id w).1 ≡ record w { calls = w.calls ++ stop_egress r.egress_id ∷ [] }
  unfolding stop require_recording RecordingsWorld.require_room
  stop_of slug id room r w there found here = ground arith

  keep-first :
      (p : RecordingRow → Bool) (rs : List RecordingRow) (r : RecordingRow)
      (P : RecordingRow → Type 0)
      → All P rs
      → first (keep p rs) ≡ some r
      → (p r ≡ true) × P r
  keep-first p [] r P all found = absurd (cc found)
  keep-first p (x ∷ rs) r P (here, every) found = elim (Bool-cases (p x)) [
    | inl e ↦
        let one : x ≡ r = ground (arith, e, found) in subst (λ z. (p z ≡ true) × P z) one (e, here)
    | inr e ↦ keep-first p rs r P every (ground (arith, e, found))
  ]

  -- A participant stops nothing but a recording of this room that is running and that they started:
  -- either nothing changes and they are refused, or Egress is asked to stop one such recording, once,
  -- and nothing else is touched.
  pub stop_as_participant_lem :
      (slug : String) (participant : CallParticipant) (room : RoomRow) (w : World db lk)
      → find_by_slug slug env.rooms ≡ some room
      → (stop_as_participant db lk env slug participant w
          ≡ (err (Exception.forbidden FaultCode.not_recording_owner), w))
        ⊎ ((r : RecordingRow) × (db.recordings.find_unique r.id w.archive.recordings ≡ some r)
            × (is_running_in db lk env room.id r ≡ true)
            × (started_by participant.identity r ≡ true)
            × ((stop_as_participant db lk env slug participant w).1
                ≡ record w { calls = w.calls ++ stop_egress r.egress_id ∷ [] }))
  unfolding stop_as_participant RecordingsWorld.require_room
  stop_as_participant_lem slug participant room w there =
      elim (Option-cases (
        first (keep (started_by participant.identity) (list_active_by_room db lk env room.id w)))) [
          | inl e ↦ inl (ground (arith, e, there))
          | inr (r, e) ↦
              let (mine, (running, found)) =
                keep-first (started_by participant.identity)
                  (list_active_by_room db lk env room.id w) r
                  (λ x.
                    (is_running_in db lk env room.id x ≡ true)
                    × (db.recordings.find_unique x.id w.archive.recordings ≡ some x))
                  (db.recordings.find_many_found (is_running_in db lk env room.id)
                    w.archive.recordings)
                  e in
              inr (
                r,
                found,
                running,
                mine,
                rw (there, e) (stop_of slug r.id room r w there found (ground (arith, running))),
              )
        ]
