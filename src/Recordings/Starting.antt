-- ===== src/Recordings/Starting.antt =====
-- When a recording starts.
use huddle.ShareConsents
use huddle.Prelude.{
  ℕ, String, Option, none, some, List, [], ◌∷◌, Bool, true, false, if◌then◌else◌, is_some, same,
  ◌≡◌, ◌≢◌, ◌⊎◌, ◌&&◌, inl, inr, refl, sym, ap, subst, ◌∙◌, arith, Bool-cases, Option-cases, ◌++◌,
}
use huddle.Records.{RecordingShareConsent}
use huddle.RoomState.{is_empty}
use huddle.Archive.{Archive, RecordingRow, RecordingStatus, is_running}
use huddle.Prisma.{holds}
use huddle.Fault.{Result-cases, Exception, FaultCode, Result, ok, err}
use huddle.Service.{pure, each, proceed}
use huddle.DeliveryWorld.{active_connection, usable}
use huddle.Metadata.{LivekitServer}
use huddle.RecordingsWorld
use huddle.RecordingsWorld.{
  RoomRow, User, CallParticipant, RecordingCall, ensure_bucket, start_room_composite, stop_egress,
  get_object, World, Environment, Service, find_by_slug, find_by_id, find_user, with_identity,
  matches_account_binding,
}
use huddle.Recordings.{
  seed_one, seed_in, is_running_in, new_recording, set_recording_indicator, seed_recipients,
  require_storage, announce, begin_recording, start_recording, list_active_by_room, to_summary,
  upsert_recipient,
}
use huddle.Metadata.{RoomMetadata, is_recording}
use huddle.Metadata.Keys.{Accepts}
use huddle.Recordings.Indicator.{set_recording_indicator-on}

find_by_slug-slug :
    (slug : String) (rooms : List RoomRow) (room : RoomRow)
    → find_by_slug slug rooms ≡ some room
    → room.slug ≡ slug
find_by_slug-slug slug [] room found = cc found
find_by_slug-slug slug (r ∷ rs) room found = elim (Bool-cases (same r.slug slug)) [
  | inl e ↦ ground (arith, e, found)
  | inr e ↦ find_by_slug-slug slug rs room (ground (arith, e, found))
]

not_empty : (rs : List RecordingRow) → rs ≢ [] → is_empty rs ≡ false
not_empty [] some_row = absurd (some_row refl)
not_empty (r ∷ rs) some_row = refl

module _ (db : Archive) (lk : LivekitServer) (env : Environment) where
  abbrev IsFramed : World db lk → World db lk → Type 0
  IsFramed w w' =
      (w'.archive.recordings ≡ w.archive.recordings)
      × (w'.archive.now ≡ w.archive.now)
      × (w'.livekit ≡ w.livekit)
      × (w'.calls ≡ w.calls)

  IsFramed-trans : (w w' w'' : World db lk) → IsFramed w w' → IsFramed w' w'' → IsFramed w w''
  IsFramed-trans w w' w'' (a, b, c, d) (a', b', c', d') = (a' ∙ a, b' ∙ b, c' ∙ c, d' ∙ d)

  go_on :
      {A B : Type 0} (w : World db lk) (step : A → Service db lk B) (a : Result A)
      (w' : World db lk)
      → IsFramed w w'
      → ((x : A) → IsFramed w' (step x w').1)
      → IsFramed w (proceed step a w').1
  go_on w step (ok x) w' before after = IsFramed-trans w w' (step x w').1 before (after x)
  go_on w step (err e) w' before after = before

  each-IsFramed :
      {A : Type 0} (body : A → Service db lk (Unit {0}))
      → ((x : A) (w : World db lk) → IsFramed w (body x w).1)
      → (xs : List A) (w : World db lk) → IsFramed w (each body xs w).1
  unfolding each
  each-IsFramed body one [] w = (refl, refl, refl, refl)
  each-IsFramed body one (x ∷ xs) w =
      go_on w (λ _. each body xs) (body x w).0 (body x w).1 (one x w)
        (λ _. each-IsFramed body one xs (body x w).1)

  seed_one-IsFramed :
      (id : String) (ps : List CallParticipant) (c : RecordingShareConsent) (w : World db lk)
      → IsFramed w (seed_one db lk env id ps c w).1
  unfolding seed_one upsert_recipient
  seed_one-IsFramed id ps c w = ground (arith, Option-cases (find_user c.user_id env.users))

  seed_in-IsFramed :
      (slug id : String) (sid : Option String) (w : World db lk)
      → IsFramed w (seed_in db lk env slug id sid w).1
  unfolding seed_in RecordingsWorld.list_connected_participants
  seed_in-IsFramed slug id none w = (refl, refl, refl, refl)
  seed_in-IsFramed slug id (some sid) w = elim (Bool-cases (same sid "")) [
    | inl e ↦ rw (e) (refl, refl, refl, refl)
    | inr e ↦
        let (consents, r) =
          ShareConsents.list_recording_share_consents w.archive.now slug sid w.redis in
        let w1 = record w { redis = r } in
        rw (e) (
          go_on w (λ ps. each (seed_one db lk env id ps) consents) (env.participants slug) w1
            (refl, refl, refl, refl)
            (λ ps. each-IsFramed (seed_one db lk env id ps) (seed_one-IsFramed id ps) consents w1))
  ]

  -- Seeding touches only the recipients and Redis.
  seed_recipients-IsFramed :
      (slug id : String) (share : Bool) (w : World db lk)
      → IsFramed w (seed_recipients db lk env slug id share w).1
  unfolding seed_recipients RecordingsWorld.get_room_sid
  seed_recipients-IsFramed slug id false w = (refl, refl, refl, refl)
  seed_recipients-IsFramed slug id true w = elim (Result-cases (env.room_listing slug)) [
    | inl (u, e) ↦ rw (e) (seed_in-IsFramed slug id _ w)
    | inr (x, e) ↦ rw (e) (refl, refl, refl, refl)
  ]

  -- Whether a recording may start is decided before Egress is asked: with one already running the
  -- request is refused and nothing changes; with the storage down it is refused, and nothing but the
  -- bucket was asked for; otherwise Egress is asked next, and its refusal leaves the tables alone.
  pub start_recording_guards :
      (id slug : String) (identity : Option String) (room : RoomRow) (w : World db lk)
      → find_by_slug slug env.rooms ≡ some room
      → start_recording db lk env id slug identity w ≡ (
          if is_empty (list_active_by_room db lk env room.id w)
          then (let asked = record w { calls = w.calls ++ ensure_bucket ∷ [] } in
              elim (env.bucket w.calls) [
                | ok u ↦ begin_recording db lk env id room slug identity asked
                | err e ↦
                    (err (Exception.service_unavailable FaultCode.upstream_unavailable), asked)
              ])
          else (err (Exception.conflict FaultCode.recording_in_progress), w))
  unfolding start_recording RecordingsWorld.require_room require_storage
  start_recording_guards id slug identity room w there = ground arith

  set_recording_indicator-step :
      (slug id : String) (share : Bool) (w : World db lk)
      → ((set_recording_indicator db lk env slug id share w).0 ≡ ok tt)
        × ((set_recording_indicator db lk env slug id share w).1.archive ≡ w.archive)
        × ((set_recording_indicator db lk env slug id share w).1.calls ≡ w.calls)
  unfolding set_recording_indicator
  set_recording_indicator-step slug id share w = ground arith

  announce_lem :
      (slug : String) (rec : RecordingRow) (share : Bool) (now : ℕ) (w : World db lk)
      → IsFramed
          (set_recording_indicator db lk env slug rec.id share w).1
          (announce db lk env slug rec share now w).1
  unfolding announce
  announce_lem slug rec share now w =
      let w1 = (set_recording_indicator db lk env slug rec.id share w).1 in
      rw ((set_recording_indicator-step slug rec.id share w).0) (
        go_on w1 (λ _. pure (to_summary db lk env now rec none [] slug))
          (seed_recipients db lk env slug rec.id share w1).0
          (seed_recipients db lk env slug rec.id share w1).1
          (seed_recipients-IsFramed slug rec.id share w1) (λ _. (refl, refl, refl, refl)))

  -- The world once Egress has answered and the row is there.
  abbrev captured : RecordingRow → World db lk → World db lk
  captured rec w = record w {
    calls = w.calls ++ start_room_composite rec.room_slug rec.object_key ∷ [];
    archive = record w.archive { recordings = db.recordings.create rec w.archive.recordings };
  }

  -- The row of a recording that Egress started.
  abbrev started_row :
      String → String → Option String → RoomRow → String → World db lk → RecordingRow
  started_row id slug identity room egress_id w =
      new_recording db lk env id room egress_id (env.object_key slug w.archive.now) identity
        (is_some (usable (db.connections.find_unique room.host_user_id w.archive.connections)))
        w.archive.now

  begin_recording_lem :
      (id slug : String) (identity : Option String) (room : RoomRow) (egress_id : String)
      (w : World db lk)
      → room.slug ≡ slug
      → env.egress_started w.calls ≡ ok egress_id
      → let rec = started_row id slug identity room egress_id w in
        begin_recording db lk env id room slug identity w
        ≡ announce db lk env slug rec rec.drive_share_available w.archive.now (captured rec w)
  unfolding begin_recording active_connection
  begin_recording_lem id slug identity room egress_id w e started = rw (e) (rw (started) refl)

  -- The world in which Egress is asked.
  abbrev bucket_asked : World db lk → World db lk
  bucket_asked w = record w { calls = w.calls ++ ensure_bucket ∷ [] }

  start_recording-after :
      (id slug : String) (identity : Option String) (room : RoomRow) (egress_id : String)
      (w : World db lk)
      → find_by_slug slug env.rooms ≡ some room
      → list_active_by_room db lk env room.id w ≡ []
      → env.bucket w.calls ≡ ok tt
      → env.egress_started (w.calls ++ ensure_bucket ∷ []) ≡ ok egress_id
      → let rec = started_row id slug identity room egress_id w in
        IsFramed
          (set_recording_indicator db lk env slug id rec.drive_share_available
            (captured rec (bucket_asked w))).1
          (start_recording db lk env id slug identity w).1
  start_recording-after id slug identity room egress_id w there idle stored started =
      let rec = started_row id slug identity room egress_id w in
      let guards = start_recording_guards id slug identity room w there in
      let step : start_recording db lk env id slug identity w
          ≡ announce db lk env slug rec rec.drive_share_available w.archive.now
              (captured rec (bucket_asked w)) =
        guards
        ∙ rw (idle, stored)
            (begin_recording_lem id slug identity room egress_id (bucket_asked w)
              (find_by_slug-slug slug env.rooms room there) started) in
      subst
        (λ o.
          IsFramed
            (set_recording_indicator db lk env slug id rec.drive_share_available
              (captured rec (bucket_asked w))).1
            o.1)
        (sym step)
        (announce_lem slug rec rec.drive_share_available w.archive.now
          (captured rec (bucket_asked w)))

  -- While a recording of the room runs, a start is refused.
  second_refused :
      (id id' slug : String) (other : Option String) (room : RoomRow) (later : World db lk)
      → find_by_slug slug env.rooms ≡ some room
      → (holds
            (is_running_in db lk env room.id)
            (db.recordings.find_unique id later.archive.recordings)
          ≡ false)
        ⊎ (start_recording db lk env id' slug other later
            ≡ (err (Exception.conflict FaultCode.recording_in_progress), later))
  second_refused id id' slug other room later there =
      let table = later.archive.recordings in
      elim (Option-cases (db.recordings.find_unique id table)) [
        | inl e ↦ inl (rw (e) refl)
        | inr (row, e) ↦ elim (Bool-cases (is_running_in db lk env room.id row)) [
          | inr over ↦ inl (rw (e) over)
          | inl runs ↦
              let busy : is_empty (list_active_by_room db lk env room.id later) ≡ false =
                not_empty _ (λ (nothing : list_active_by_room db lk env room.id later ≡ []).
                  absurd (
                    ground (
                      arith,
                      runs,
                      db.recordings.find_many_none (is_running_in db lk env room.id) table id row
                          nothing e,
                    ))) in
              inr (start_recording_guards id' slug other room later there ∙ rw (busy) refl)
        ]
      ]

  -- A recording that starts, in a room of LiveKit's that takes writes, is there under its new id,
  -- starting, in the room, and credited to whom it is started for; the storage and Egress were asked
  -- once each and in this order; and every client sees the indicator, whatever seeding the recipients
  -- came to. In whatever world comes later, any other start in the room is refused and changes
  -- nothing, unless the row of the new recording is gone or is no longer a running one of the room.
  pub start_recording_lem :
      (id id' slug : String) (identity other : Option String) (room : RoomRow) (egress_id : String)
      (w later : World db lk) (found : String × Option RoomMetadata)
      → find_by_slug slug env.rooms ≡ some room
      → list_active_by_room db lk env room.id w ≡ []
      → env.bucket w.calls ≡ ok tt
      → env.egress_started (w.calls ++ ensure_bucket ∷ []) ≡ ok egress_id
      → db.recordings.find_unique id w.archive.recordings ≡ none
      → lk.list_rooms slug w.livekit ≡ some found
      → Accepts lk slug
      → let w' = (start_recording db lk env id slug identity w).1 in
        ((rec : RecordingRow) × (db.recordings.find_unique id w'.archive.recordings ≡ some rec)
          × (rec.status ≡ RecordingStatus.starting)
          × (rec.room_id ≡ room.id)
          × (rec.started_by_identity ≡ identity)
          × (w'.calls
              ≡ (w.calls ++ ensure_bucket ∷ [])
                ++ start_room_composite room.slug rec.object_key ∷ []))
        × (is_recording lk slug w'.livekit ≡ true)
        × ((holds
                (λ r. same r.room_id room.id && is_running r.status)
                (db.recordings.find_unique id later.archive.recordings)
              ≡ false)
            ⊎ (start_recording db lk env id' slug other later
                ≡ (err (Exception.conflict FaultCode.recording_in_progress), later)))
  start_recording_lem id id' slug identity other room egress_id w later found there idle stored
        started fresh live accepts =
      let rec = started_row id slug identity room egress_id w in
      let w1 = captured rec (bucket_asked w) in
      let w' = (start_recording db lk env id slug identity w).1 in
      let (rows, now, signs, calls) =
        start_recording-after id slug identity room egress_id w there idle stored started in
      let (fine, archive, asked) =
        set_recording_indicator-step slug id rec.drive_share_available w1 in
      let row : db.recordings.find_unique id w'.archive.recordings ≡ some rec =
        ap (db.recordings.find_unique id) (rows ∙ ap (λ a. a.recordings) archive)
        ∙ (db.recordings.find_unique-create id rec w.archive.recordings fresh ∙ ground arith) in
      (
        (rec, row, refl, refl, refl, calls ∙ asked),
        ap (is_recording lk slug) signs
            ∙ set_recording_indicator-on db lk env slug id rec.drive_share_available w1 found live
                accepts,
        second_refused id id' slug other room later there,
      )
