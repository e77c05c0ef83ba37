-- ===== src/Recordings/Indicator.antt =====
-- The Recording Indicator follows the recordings.
use huddle.Prelude.{
  ℕ, String, Option, none, some, List, [], ◌∷◌, Bool, true, false, not, same, ◌≡◌, ◌⊎◌, inl, inr,
  refl, sym, ap, subst, ◌∙◌, All, arith, Bool-cases, Option-cases,
}
use huddle.RoomState.{is_empty}
use huddle.Archive.{Archive, RecordingRow, RecordingStatus, is_running, is_completed}
use huddle.Fault.{ok}
use huddle.Metadata.{LivekitServer, RoomMetadata, is_recording}
use huddle.Metadata.Keys.{
  Accepts, set_recording_active_accepted, set_recording_state_accepted, set_recording_state-on,
  set_recording_active_lem,
}
use huddle.RecordingsWorld.{RoomRow, World, Environment, find_by_id}
use huddle.RecordingRows.{EgressInfo, map_status, is_ended, is_truthy, advanced}
use huddle.Recordings.{
  is_running_in, set_recording_indicator, find_by_egress_id, list_active_by_room, set_indicator,
}
use huddle.Prisma.{updated, holds}
use huddle.Recordings.Events.{complete, show_state, record_event, advance, handle_egress_event}
use huddle.DeliveryCycle.Retention.{on_recording_completed-recordings, on_recording_completed_ok}

empty_of :
    (P : RecordingRow → Type 0) (rs : List RecordingRow)
    → All P rs
    → ((r : RecordingRow) → ¬ P r)
    → rs ≡ []
empty_of P [] every impossible = refl
empty_of P (r ∷ rs) (here, every) impossible = absurd (impossible r here)

empty : (rs : List RecordingRow) → is_empty rs ≡ true → rs ≡ []
empty [] e = refl
empty (r ∷ rs) e = cc e

module _ (db : Archive) (lk : LivekitServer) (env : Environment) where
  -- Nobody is recorded without the sign: no recording of the room runs, or the indicator is on.
  abbrev pub IsShown : RoomRow → World db lk → Type 0
  IsShown room w =
      (list_active_by_room db lk env room.id w ≡ []) ⊎ (is_recording lk room.slug w.livekit ≡ true)

  set_indicator-on :
      (slug : String) (active : Bool) (w : World db lk) (found : String × Option RoomMetadata)
      → lk.list_rooms slug w.livekit ≡ some found
      → Accepts lk slug
      → is_recording lk slug (set_indicator db lk env slug active w).1.livekit ≡ active
  unfolding set_indicator
  set_indicator-on slug active w found there accepts =
      let done = set_recording_active_accepted lk w.archive.now slug active w.livekit accepts in
      rw (done) (set_recording_active_lem lk w.archive.now slug active w.livekit found there done).0

  set_indicator-archive :
      (slug : String) (active : Bool) (w : World db lk)
      → ((set_indicator db lk env slug active w).1.archive ≡ w.archive)
        × ((set_indicator db lk env slug active w).1.redis ≡ w.redis)
        × ((set_indicator db lk env slug active w).1.calls ≡ w.calls)
  unfolding set_indicator
  set_indicator-archive slug active w = ground arith

  pub set_recording_indicator-on :
      (slug id : String) (share : Bool) (w : World db lk) (found : String × Option RoomMetadata)
      → lk.list_rooms slug w.livekit ≡ some found
      → Accepts lk slug
      → is_recording lk slug (set_recording_indicator db lk env slug id share w).1.livekit ≡ true
  unfolding set_recording_indicator
  set_recording_indicator-on slug id share w found there accepts =
      let done = set_recording_state_accepted lk w.archive.now slug id share w.livekit accepts in
      rw (done)
        (set_recording_state-on lk w.archive.now slug id share w.livekit found there accepts)

  complete_ok :
      (id : String) (r : RecordingRow) (room : Option RoomRow) (w : World db lk)
      → ((complete db lk env id r room w).0 ≡ ok tt)
        × ((complete db lk env id r room w).1.livekit ≡ w.livekit)
  unfolding complete
  complete_ok id r none w = (refl, refl)
  complete_ok id r (some room) w =
      (on_recording_completed_ok db env.delivery id r.id room.host_user_id w.archive, refl)

  complete-running :
      (id room_id k : String) (r : RecordingRow) (room : Option RoomRow) (w : World db lk)
      → holds
          (is_running_in db lk env room_id)
          (db.recordings.find_unique k (complete db lk env id r room w).1.archive.recordings)
        ≡ holds (is_running_in db lk env room_id) (db.recordings.find_unique k w.archive.recordings)
  unfolding complete
  complete-running id room_id k r none w = refl
  complete-running id room_id k r (some room) w = ground (
    arith,
    on_recording_completed-recordings db env.delivery id r.id room.host_user_id k w.archive,
  )

  held :
      (room_id : String) (o : Option RecordingRow)
      → holds (is_running_in db lk env room_id) o ≡ true
      → ¬ ((s : RecordingRow) → o ≡ some s → is_running_in db lk env room_id s ≡ false)
  held room_id none runs never = cc runs
  held room_id (some s) runs never = cc (runs, never s refl)

  ended-running : (s : RecordingStatus) → is_ended s ≡ true → is_running s ≡ false
  ended-running RecordingStatus.starting e = cc e
  ended-running RecordingStatus.active e = cc e
  ended-running RecordingStatus.completed e = refl
  ended-running RecordingStatus.failed e = refl
  ended-running RecordingStatus.aborted e = refl

  advanced-running :
      (room_id : String) (status : RecordingStatus) (now : ℕ) (info : EgressInfo)
      (o : Option RecordingRow)
      → is_ended status ≡ true
      → holds
          (is_running_in db lk env room_id)
          (updated (λ r. same r.egress_id info.egress_id) (advanced status now info) o)
        ≡ true
      → holds (is_running_in db lk env room_id) o ≡ true
  advanced-running room_id status now info none ended runs = runs
  advanced-running room_id status now info (some r) ended runs =
      ground (arith, ended-running status ended, runs)

  -- An event that ends a recording makes none run.
  record_event-running :
      (id room_id k : String) (info : EgressInfo) (r : RecordingRow) (w : World db lk)
      → is_ended (map_status info.status) ≡ true
      → holds
          (is_running_in db lk env room_id)
          (db.recordings.find_unique k (record_event db lk env id info r w).1.archive.recordings)
        ≡ true
      → holds (is_running_in db lk env room_id) (db.recordings.find_unique k w.archive.recordings)
        ≡ true
  unfolding record_event
  record_event-running id room_id k info r w ended runs =
      let q = λ (x : RecordingRow). same x.egress_id info.egress_id in
      let f = advanced (map_status info.status) w.archive.now info in
      let w1 = record w {
        archive = record w.archive {
          recordings = (db.recordings.update_many q f w.archive.recordings).1;
        };
      } in
      let found = db.recordings.find_unique-update_many k q f w.archive.recordings (λ x. refl) in
      advanced-running room_id (map_status info.status) w.archive.now info
        (db.recordings.find_unique k w.archive.recordings) ended
        (subst (λ o. holds (is_running_in db lk env room_id) o ≡ true) found
          (elim (Bool-cases (is_completed (map_status info.status))) [
            | inl e ↦
                sym (complete-running id room_id k r (find_by_id r.room_id env.rooms) w1)
                ∙ ground (arith, e, runs)
            | inr e ↦ ground (arith, e, runs)
          ]))

  record_event_ok :
      (id : String) (info : EgressInfo) (r : RecordingRow) (w : World db lk)
      → ((record_event db lk env id info r w).0 ≡ ok tt)
        × ((record_event db lk env id info r w).1.livekit ≡ w.livekit)
  unfolding record_event
  record_event_ok id info r w =
      let w1 = record w {
        archive = record w.archive {
          recordings =
              (db.recordings.update_many (λ x. same x.egress_id info.egress_id)
                (advanced (map_status info.status) w.archive.now info) w.archive.recordings).1;
        };
      } in
      elim (Bool-cases (is_completed (map_status info.status))) [
        | inl e ↦ rw (e) (complete_ok id r (find_by_id r.room_id env.rooms) w1)
        | inr e ↦ rw (e) (refl, refl)
      ]

  nothing_runs :
      (room_id : String) (t t' : db.recordings.Table)
      → ((k : String)
          → holds (is_running_in db lk env room_id) (db.recordings.find_unique k t') ≡ true
          → holds (is_running_in db lk env room_id) (db.recordings.find_unique k t) ≡ true)
      → db.recordings.find_many (is_running_in db lk env room_id) t ≡ []
      → db.recordings.find_many (is_running_in db lk env room_id) t' ≡ []
  nothing_runs room_id t t' back none_runs =
      empty_of _ _ (db.recordings.find_many_found (is_running_in db lk env room_id) t')
        (λ r (runs, found).
          let before = back r.id (ground (arith, found, runs)) in
          held room_id (db.recordings.find_unique r.id t) before
            (λ s. db.recordings.find_many_none _ t r.id s none_runs))

  advance-IsShown :
      (id : String) (room : RoomRow) (info : EgressInfo) (r : RecordingRow) (w : World db lk)
      (found : String × Option RoomMetadata)
      → r.room_id ≡ room.id
      → is_truthy info.room_name ≡ some room.slug
      → lk.list_rooms room.slug w.livekit ≡ some found
      → Accepts lk room.slug
      → IsShown room w
      → IsShown room (advance db lk env id info r w).1
  unfolding advance show_state
  advance-IsShown id room info r w found here named there accepts shown =
      let w1 = (record_event db lk env id info r w).1 in
      let (fine, kept) = record_event_ok id info r w in
      let there1 : lk.list_rooms room.slug w1.livekit ≡ some found =
        ap (lk.list_rooms room.slug) kept ∙ there in
      elim (Bool-cases (is_ended (map_status info.status))) [
        | inl ended ↦ elim (Bool-cases (is_empty (list_active_by_room db lk env r.room_id w1))) [
          | inl quiet ↦
              let step : (advance db lk env id info r w).1
                  ≡ (set_indicator db lk env room.slug false w1).1 =
                rw (fine, ended, named, quiet) refl in
              inl (
                ap (list_active_by_room db lk env room.id) step
                ∙ (ap
                      (λ archive.
                        db.recordings.find_many (is_running_in db lk env room.id)
                          archive.recordings)
                      (set_indicator-archive room.slug false w1).0
                    ∙ empty (list_active_by_room db lk env room.id w1) (
                        subst (λ x. is_empty (list_active_by_room db lk env x w1) ≡ true) here
                          quiet)))
          | inr busy ↦
              let step : (advance db lk env id info r w).1 ≡ w1 =
                rw (fine, ended, named, busy) refl in
              subst (IsShown room) (sym step) (elim shown [
                | inl none_runs ↦ inl (
                    nothing_runs room.id w.archive.recordings w1.archive.recordings
                      (λ k runs. record_event-running id room.id k info r w ended runs) none_runs)
                | inr on ↦ inr (ap (is_recording lk room.slug) kept ∙ on)
              ])
        ]
        | inr ongoing ↦
            inr
              (rw (fine, ongoing, named) (set_indicator-on room.slug true w1 found there1 accepts))
      ]

  -- As long as LiveKit takes the writes, nobody is recorded without the sign: when no recording of a
  -- room runs or its indicator is on, the same holds after any egress event that names the room, of
  -- any recording of the room or of none, in any order and however often events are reported.
  pub handle_egress_event-IsShown :
      (id : String) (room : RoomRow) (info : EgressInfo) (w : World db lk)
      (found : String × Option RoomMetadata)
      → holds (λ r. not (same r.room_id room.id)) (find_by_egress_id db lk env info.egress_id w)
        ≡ false
      → is_truthy info.room_name ≡ some room.slug
      → lk.list_rooms room.slug w.livekit ≡ some found
      → Accepts lk room.slug
      → IsShown room w
      → IsShown room (handle_egress_event db lk env id info w).1
  unfolding handle_egress_event
  handle_egress_event-IsShown id room info w found here named there accepts shown =
      elim (Option-cases (find_by_egress_id db lk env info.egress_id w)) [
        | inl e ↦
            let step : (handle_egress_event db lk env id info w).1 ≡ w = ground (arith, e) in
            subst (IsShown room) (sym step) shown
        | inr (r, e) ↦
            let step : (handle_egress_event db lk env id info w).1
                ≡ (advance db lk env id info r w).1 =
              ground (arith, e) in
            subst (IsShown room) (sym step) (
              advance-IsShown id room info r w found (ground (arith, e, here)) named there accepts
                shown)
      ]
