-- ===== src/Recordings/Recipients.antt =====
-- Who receives a recording.
use huddle.ShareConsents
use huddle.Prelude.{
  ℕ, String, Option, none, some, List, true, false, not, ◌||◌, same, ◌≡◌, ◌⊎◌, inl, inr, refl, ap,
  ◌∙◌, arith, Bool-cases, Option-cases,
}
use huddle.Records.{RecordingShareConsent}
use huddle.Archive.{Archive, RecordingRow, RecipientRow}
use huddle.Fault.{Result-cases, Exception, FaultCode, ok, err}
use huddle.Metadata.{LivekitServer}
use huddle.RecordingsWorld
use huddle.RecordingsWorld.{
  RoomRow, User, CallParticipant, RecordingCall, ensure_bucket, start_room_composite, stop_egress,
  get_object, World, Environment, Service, find_by_slug, find_by_id, find_user, with_identity,
  sid_of, matches_account_binding,
}
use huddle.Recordings.{new_recipient, is_recipient, find_active_by_room, is_bound, upsert_recipient}
use huddle.Recordings.Consents.{
  give_in, is_host, join_recording, join_as, offers_sharing, on_participant_joined,
  give_recording_share_consent,
}

module _ (db : Archive) (lk : LivekitServer) (env : Environment) where
  -- After an upsert the user receives the recording, and who received it before does so as before: an
  -- earlier consent keeps its time and what came of it.
  pub upsert_recipient_lem :
      (recording_id k : String) (user : User) (at : ℕ) (row : RecipientRow) (w : World db lk)
      → db.recipients.find_unique (env.fresh user.id) w.archive.recipients ≡ none
      → db.recipients.find_unique k w.archive.recipients ≡ some row
      → let t = (upsert_recipient db lk env recording_id user at w).1.archive.recipients in
        ((r : RecipientRow) × (db.recipients.find_unique r.id t ≡ some r)
          × (is_recipient db lk env recording_id user.id r ≡ true))
        × (db.recipients.find_unique k t ≡ some row)
  unfolding upsert_recipient new_recipient
  upsert_recipient_lem recording_id k user at row w fresh there =
      let t = w.archive.recipients in
      let p = is_recipient db lk env recording_id user.id in
      elim (Option-cases (db.recipients.find_first p (λ r. 0) t)) [
        | inl e ↦
            let new = new_recipient db lk env recording_id user at in
            let step : (upsert_recipient db lk env recording_id user at w).1.archive.recipients
                ≡ db.recipients.create new t =
              ground (arith, e) in
            (
              (
                new,
                ap (db.recipients.find_unique new.id) step
                    ∙ (db.recipients.find_unique-create new.id new t fresh ∙ ground arith),
                ground arith,
              ),
              ap (db.recipients.find_unique k) step
                  ∙ (db.recipients.find_unique-create k new t fresh ∙ ground (arith, fresh, there)),
            )
        | inr (r, e) ↦
            let (hit, found) = db.recipients.find_first_found p (λ r. 0) t r e in
            let step : (upsert_recipient db lk env recording_id user at w).1.archive.recipients
                ≡ t =
              ground (arith, e) in
            (
              (r, ap (db.recipients.find_unique r.id) step ∙ found, hit),
              ap (db.recipients.find_unique k) step ∙ there,
            )
      ]

  join_recording_lem :
      (slug identity : String) (c : RecordingShareConsent) (active : RecordingRow) (w : World db lk)
      → let w' = (join_recording db lk env slug identity c (some active) w).1 in
        (w'.archive ≡ w.archive)
        ⊎ ((user : User) × (find_user c.user_id env.users ≡ some user)
            × ((ps : List CallParticipant) × (env.participants slug ≡ ok ps)
                × (is_bound db lk env c.user_id (with_identity identity ps) ≡ true))
            × (w'.archive ≡ (upsert_recipient db lk env active.id user c.consented_at w).1.archive))
  unfolding join_recording RecordingsWorld.list_connected_participants
  join_recording_lem slug identity c active w = elim (Result-cases (env.participants slug)) [
    | inr (x, e) ↦ inl (ground (arith, e))
    | inl (ps, e) ↦ elim (Option-cases (find_user c.user_id env.users)) [
      | inl unknown ↦ inl (ground (arith, e, unknown))
      | inr (user, known) ↦
          elim (Bool-cases (is_bound db lk env c.user_id (with_identity identity ps))) [
            | inr loose ↦ inl (ground (arith, e, known, loose))
            | inl bound ↦ inr (user, known, (ps, e, bound), ground (arith, e, known, bound))
          ]
    ]
  ]

  offers_inv :
      (o : Option RecordingRow) (r : RecordingRow)
      → offers_sharing db lk env o ≡ some r
      → (o ≡ some r) × (r.drive_share_available ≡ true)
  offers_inv none r e = cc e
  offers_inv (some x) r e = ground arith

  -- A participant who enters is put on the list of a recording only if all of this holds: they gave
  -- their consent in this call under this identity, the room has a running recording that offers
  -- sharing, and the participant LiveKit shows under the identity proves to be the user. Otherwise
  -- the recipients stay, and in no case does anything else of the archive change.
  pub on_participant_joined_lem :
      (slug sid identity : String) (w : World db lk)
      → let w' = (on_participant_joined db lk env slug sid identity w).1 in
        (w'.archive ≡ w.archive)
        ⊎ ((c : RecordingShareConsent) × (active : RecordingRow) × (room : RoomRow) × (user : User)
            × ((ShareConsents.get_recording_share_consent_by_identity w.archive.now slug sid
                  identity w.redis).0
                ≡ some c)
            × (find_by_slug slug env.rooms ≡ some room)
            × (find_active_by_room db lk env room.id w ≡ some active)
            × (active.drive_share_available ≡ true)
            × (find_user c.user_id env.users ≡ some user)
            × ((ps : List CallParticipant) × (env.participants slug ≡ ok ps)
                × (is_bound db lk env c.user_id (with_identity identity ps) ≡ true))
            × (w'.archive ≡ (upsert_recipient db lk env active.id user c.consented_at w).1.archive))
  unfolding on_participant_joined join_as join_recording upsert_recipient
  on_participant_joined_lem slug sid identity w =
      let (found, r) =
        ShareConsents.get_recording_share_consent_by_identity w.archive.now slug sid identity
          w.redis in
      let w1 = record w { redis = r } in
      elim (Option-cases found) [
        | inl e ↦ inl (ground (arith, e))
        | inr (c, e) ↦ elim (Option-cases (find_by_slug slug env.rooms)) [
          | inl no_room ↦ inl (ground (arith, e, no_room))
          | inr (room, there) ↦
              let offered = offers_sharing db lk env (find_active_by_room db lk env room.id w) in
              let step : (on_participant_joined db lk env slug sid identity w).1.archive
                  ≡ (join_recording db lk env slug identity c offered w1).1.archive =
                ground (arith, e, there) in
              elim (Option-cases offered) [
                | inl none_active ↦ inl (step ∙ ground (arith, none_active))
                | inr (active, offer) ↦
                    let (one, shared) =
                      offers_inv (find_active_by_room db lk env room.id w) active offer in
                    elim (join_recording_lem slug identity c active w1) [
                      | inl kept ↦ inl (step ∙ (rw (offer) kept))
                      | inr (user, known, bound, put) ↦ inr (
                        c,
                        active,
                        room,
                        user,
                        e,
                        there,
                        one,
                        shared,
                        known,
                        bound,
                        step ∙ (rw (offer) put),
                      )
                    ]
              ]
        ]
      ]

  give_in_lem :
      (slug : String) (user : User) (p : CallParticipant) (sid : Option String)
      (connected : Option CallParticipant) (o : Option RecordingRow) (w : World db lk)
      → let step = give_in db lk env slug user p sid connected o w in
        (step ≡ (err (Exception.conflict FaultCode.recording_share_unavailable), w))
        ⊎ ((active : RecordingRow) × (at : ℕ) × (o ≡ some active)
            × (is_bound db lk env user.id connected ≡ true)
            × (step.0 ≡ ok tt)
            × (step.1.archive ≡ (upsert_recipient db lk env active.id user at w).1.archive))
  unfolding give_in upsert_recipient ShareConsents.add_recording_share_consent
  give_in_lem slug user p none connected o w = inl refl
  give_in_lem slug user p (some sid) connected none w = inl refl
  give_in_lem slug user p (some sid) connected (some active) w =
      elim (Bool-cases (same sid "" || not (is_bound db lk env user.id connected))) [
        | inl shut ↦ inl (ground (arith, shut))
        | inr opened ↦ inr (
          active,
          w.archive.now,
          refl,
          ground (arith, opened),
          rw (opened) refl,
          rw (opened) refl,
        )
      ]

  -- Consent to sharing is taken, and the user put on the running recording's list, only from someone
  -- who is not the host, whose own token and whose presence in the call both prove the account, and
  -- while a recording runs that offers sharing. Whoever fails any of this is refused, and the refusal
  -- changes nothing, neither in Redis nor in the database; nor does it when LiveKit does not tell the
  -- room's SID, whose error is passed on.
  pub give_recording_share_consent_lem :
      (slug : String) (user : User) (p : CallParticipant) (room : RoomRow)
      (ps : List CallParticipant) (w : World db lk)
      → find_by_slug slug env.rooms ≡ some room
      → env.participants slug ≡ ok ps
      → let step = give_recording_share_consent db lk env slug user p w in
        ((step ≡ (err (Exception.forbidden FaultCode.recording_share_not_allowed), w))
          ⊎ (step ≡ (err (Exception.conflict FaultCode.recording_share_unavailable), w))
          ⊎ ((e : Exception) × (env.room_listing slug ≡ err e) × (step ≡ (err e, w))))
        ⊎ ((active : RecordingRow) × (at : ℕ) × (find_active_by_room db lk env room.id w
              ≡ some active)
            × (active.drive_share_available ≡ true)
            × (is_host db lk env p.role ≡ false)
            × (is_bound db lk env user.id (some p) ≡ true)
            × (is_bound db lk env user.id (with_identity p.identity ps) ≡ true)
            × (step.0 ≡ ok tt)
            × (step.1.archive ≡ (upsert_recipient db lk env active.id user at w).1.archive))
  unfolding give_recording_share_consent RecordingsWorld.require_room RecordingsWorld.get_room_sid
      RecordingsWorld.list_connected_participants
  give_recording_share_consent_lem slug user p room ps w there listed =
      elim (Bool-cases (is_host db lk env p.role || not (is_bound db lk env user.id (some p)))) [
        | inl barred ↦ inl (inl (ground (arith, there, barred)))
        | inr free ↦ elim (Result-cases (env.room_listing slug)) [
          | inr (x, silent) ↦ inl (inr (inr (x, silent, rw (there, free, silent) refl)))
          | inl (u, told) ↦
              let sid = sid_of (lk.list_rooms slug w.livekit) in
              let connected = with_identity p.identity ps in
              let offered = offers_sharing db lk env (find_active_by_room db lk env room.id w) in
              let step : give_recording_share_consent db lk env slug user p w
                  ≡ give_in db lk env slug user p sid connected offered w =
                rw (there, free, told, listed) refl in
              elim (give_in_lem slug user p sid connected offered w) [
                | inl refused ↦ inl (inr (inl (step ∙ refused)))
                | inr (active, at, offer, bound, fine, put) ↦
                    let (one, shared) =
                      offers_inv (find_active_by_room db lk env room.id w) active offer in
                    inr (
                      active,
                      at,
                      one,
                      shared,
                      ground (arith, free),
                      ground (arith, free),
                      bound,
                      ap (λ o. o.0) step ∙ fine,
                      ap (λ o. o.1.archive) step ∙ put,
                    )
              ]
        ]
      ]
