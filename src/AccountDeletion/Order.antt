-- ===== src/AccountDeletion/Order.antt =====
-- The account goes last.
use huddle.Prelude.{
  ℕ, ◌≡◌, ◌⊎◌, inl, inr, refl, sym, ap, ◌∙◌, subst, String, Option, none, some, List, [], ◌∷◌, ◌++◌,
  same, has, arith, All, false, is_some, Bool-cases, ◌&&◌,
}
use mathlib.Core.List.{append-nil, append_assoc}
use huddle.Delivery.{later_than}
use huddle.Archive.{Archive, RecordingRow}
use huddle.Prisma.{Delegate, holds}
use huddle.Fault.{Exception, Result, ok, err, Result-cases}
use huddle.Service.{M, pure, throw_if, ◌>>=◌, ◌>>◌, when, each, each_keeps, proceed, proceed_keeps}
use huddle.AccountDeletion.{
  DeletionRow, deletion_key, RoomRow, UserRow, Services, World, Environment, DeletionCall,
  delete_object, end_room, remove_account_participants, find_user, call, list_rooms, serve,
  leave_room, close_room, require_no_upload, stop_deliveries, delete_objects, delete_owned_avatar,
  delete_user, delete_all, delete_found, cleanup, recordings_in, stop_if_running, leave_if_bound,
  is_upload, of_user, avatar_of, is_uploading,
}

abbrev pub IsAmong : RoomRow → List RoomRow → Type 0
IsAmong room [] = ⊥
IsAmong room (x ∷ xs) = (x ≡ room) ⊎ IsAmong room xs

module _ (db : Archive) (jobs : Delegate DeletionRow deletion_key) (inner : Services)
    (env : Environment) (user_id : String) (user : UserRow) (t : db.recordings.Table) where
  -- The user and the recordings are there.
  abbrev IsThere : World db jobs inner → Type 0
  IsThere w = (find_user user_id w.users ≡ some user) × (w.recordings ≡ t)

  abbrev rows_of : World db jobs inner → ℕ × db.recordings.Table × db.deliveries.Table
  rows_of w = (w.now, w.recordings, w.deliveries)

  -- The user and what the check for uploads reads are as they were.
  abbrev IsBefore : World db jobs inner → World db jobs inner → Type 0
  IsBefore w0 w = (find_user user_id w.users ≡ some user) × (rows_of w ≡ rows_of w0)

  -- When the user is gone at the end, the first step returned, and the rest removed them.
  proceed_out :
      {A : Type 0} (P : World db jobs inner → Type 0)
      (step : A → M (World db jobs inner) (Unit {0})) (a : Result A) (w : World db jobs inner)
      → find_user user_id w.users ≡ some user
      → find_user user_id (proceed step a w).1.users ≡ none
      → ((x : A) → a ≡ ok x → find_user user_id (step x w).1.users ≡ none → P (step x w).1)
      → P (proceed step a w).1
  proceed_out P step (ok x) w there gone then_so = then_so x refl gone
  proceed_out P step (err e) w there gone then_so = absurd (cc (there, gone))

  leave_room_keeps :
      (w0 : World db jobs inner) (room : String) (w : World db jobs inner)
      → IsBefore w0 w
      → IsBefore w0 (leave_room db jobs inner env user_id room w).1
  unfolding leave_room leave_if_bound
  leave_room_keeps w0 room w there = elim (Result-cases (env.participants room)) [
    | inl (ps, e) ↦ rw (e) (
        each_keeps (IsBefore w0) (leave_if_bound db jobs inner env user_id room)
          (λ p w' kept. ground (arith, kept)) ps w there)
    | inr (x, e) ↦ rw (e) there
  ]

  stop_if_running_keeps :
      (r : RecordingRow) (w : World db jobs inner)
      → IsThere w
      → IsThere (stop_if_running db jobs inner env r w).1
  unfolding stop_if_running
  stop_if_running_keeps r w there = ground arith

  abbrev end_if_active : RoomRow → M (World db jobs inner) (Unit {0})
  end_if_active room = do
    active ← list_rooms db jobs inner env
    when (has room.slug active) (call db jobs inner env (end_room room.slug))

  end_if_active_keeps :
      (room : RoomRow) (w : World db jobs inner) → IsThere w → IsThere (end_if_active room w).1
  end_if_active_keeps room w there = elim (Result-cases (env.active_rooms w.calls)) [
    | inl (active, e) ↦ ground (arith, e, there)
    | inr (x, e) ↦ ground (arith, e, there)
  ]

  close_room_keeps :
      (room : RoomRow) (w : World db jobs inner)
      → IsThere w
      → IsThere (close_room db jobs inner env room w).1
  unfolding close_room
  close_room_keeps room w there =
      let begun = serve db jobs inner env (inner.room_finished room.slug) w in
      let stops =
        each (stop_if_running db jobs inner env) (recordings_in db jobs inner env begun.1 room)
          begun.1 in
      let kept =
        each_keeps IsThere (stop_if_running db jobs inner env) stop_if_running_keeps
          (recordings_in db jobs inner env begun.1 room) begun.1 there in
      proceed_keeps IsThere
        (λ _.
          (λ w'.
            each (stop_if_running db jobs inner env) (recordings_in db jobs inner env w' room) w')
          >>= λ _. end_if_active room)
        begun.0 begun.1
        (λ _.
          proceed_keeps IsThere (λ _. end_if_active room) stops.0 stops.1
            (λ _. end_if_active_keeps room stops.1 kept) kept)
        there

  abbrev Extends : List DeletionCall → List DeletionCall → Type 0
  Extends calls later = (more : List DeletionCall) × (calls ++ more ≡ later)

  Extends-call :
      (calls later : List DeletionCall) (c : DeletionCall)
      → Extends calls later
      → Extends calls (later ++ c ∷ [])
  Extends-call calls later c (more, e) =
      (more ++ c ∷ [], sym (append_assoc calls more (c ∷ [])) ∙ ap (λ l. l ++ c ∷ []) e)

  Extends-trans : (a b c : List DeletionCall) → Extends a b → Extends b c → Extends a c
  Extends-trans a b c (more, e) (rest, e') =
      (more ++ rest, sym (append_assoc a more rest) ∙ ap (λ l. l ++ rest) e ∙ e')

  -- Among the calls, the object storage was asked to delete the recording's object, and accepted.
  abbrev pub IsAccepted : List DeletionCall → RecordingRow → Type 0
  IsAccepted calls r =
      (before after : List DeletionCall) × (before ++ delete_object r.object_key ∷ after ≡ calls)
      × (env.accepts before (delete_object r.object_key) ≡ ok tt)

  abbrev delete_one : RecordingRow → M (World db jobs inner) (Unit {0})
  delete_one r = call db jobs inner env (delete_object r.object_key)

  delete_objects_keeps :
      (room : RoomRow) (w : World db jobs inner)
      → IsThere w
      → IsThere (delete_objects db jobs inner env room w).1
  unfolding delete_objects
  delete_objects_keeps room w there =
      each_keeps IsThere delete_one (λ r w' kept. kept) (recordings_in db jobs inner env w room) w
        there

  each-Extends :
      (calls : List DeletionCall) (rs : List RecordingRow) (w : World db jobs inner)
      → Extends calls w.calls
      → Extends calls (each delete_one rs w).1.calls
  each-Extends calls rs w ext =
      each_keeps (λ w'. Extends calls w'.calls) delete_one
        (λ r w' longer. Extends-call calls w'.calls (delete_object r.object_key) longer) rs w ext

  delete_objects-Extends :
      (calls : List DeletionCall) (rooms : List RoomRow) (w : World db jobs inner)
      → Extends calls w.calls
      → Extends calls (each (delete_objects db jobs inner env) rooms w).1.calls
  unfolding delete_objects
  delete_objects-Extends calls rooms w ext =
      each_keeps (λ w'. Extends calls w'.calls) (delete_objects db jobs inner env)
        (λ room w' longer. each-Extends calls (recordings_in db jobs inner env w' room) w' longer)
        rooms w ext

  deletions-IsAccepted :
      (rs : List RecordingRow) (w : World db jobs inner) (final : List DeletionCall)
      → (each delete_one rs w).0 ≡ ok tt
      → Extends (each delete_one rs w).1.calls final
      → All (IsAccepted final) rs
  unfolding each
  deletions-IsAccepted [] w final done ext = tt
  deletions-IsAccepted (r ∷ rs) w final done ext =
      let c = delete_object r.object_key in
      let w1 = record w { calls = w.calls ++ c ∷ [] } in
      elim (Result-cases (env.accepts w.calls c)) [
        | inl (x, e) ↦
            let step : each delete_one (r ∷ rs) w ≡ each delete_one rs w1 = rw (e) refl in
            let rest : Extends (each delete_one rs w1).1.calls final =
              subst (λ o. Extends o.1.calls final) step ext in
            let (after, so) =
              Extends-trans w1.calls (each delete_one rs w1).1.calls final
                (each-Extends w1.calls rs w1 ([], append-nil w1.calls)) rest in
            (
              (w.calls, after, sym (append_assoc w.calls (c ∷ []) after) ∙ so, e),
              deletions-IsAccepted rs w1 final (sym (ap (λ o. o.0) step) ∙ done) rest,
            )
        | inr (x, e) ↦ absurd (ground (arith, e, done))
      ]

  rooms-IsAccepted :
      (rooms : List RoomRow) (room : RoomRow) (w : World db jobs inner) (final : List DeletionCall)
      → (each (delete_objects db jobs inner env) rooms w).0 ≡ ok tt
      → Extends (each (delete_objects db jobs inner env) rooms w).1.calls final
      → IsThere w
      → IsAmong room rooms
      → All (IsAccepted final) (db.recordings.find_many (λ r. same r.room_id room.id) t)
  unfolding each delete_objects
  rooms-IsAccepted [] room w final done ext there among = absurd among
  rooms-IsAccepted (x ∷ xs) room w final done ext there among =
      let all = each (delete_objects db jobs inner env) in
      elim (Result-cases (delete_objects db jobs inner env x w).0) [
        | inr (y, e) ↦ absurd (ground (arith, e, done))
        | inl (y, e) ↦
            let w1 = (delete_objects db jobs inner env x w).1 in
            let step : all (x ∷ xs) w ≡ all xs w1 = rw (e) refl in
            let rest : Extends (all xs w1).1.calls final =
              subst (λ o. Extends o.1.calls final) step ext in
            let mine : Extends w1.calls final =
              Extends-trans w1.calls (all xs w1).1.calls final
                (delete_objects-Extends w1.calls xs w1 ([], append-nil w1.calls)) rest in
            elim among [
              | inl here ↦
                  subst
                    (λ o.
                      All (IsAccepted final) (db.recordings.find_many (λ r. same r.room_id o.id) t))
                    here
                    (subst
                      (λ u.
                        All (IsAccepted final)
                          (db.recordings.find_many (λ r. same r.room_id x.id) u))
                      there.1
                      (deletions-IsAccepted (recordings_in db jobs inner env w x) w final e mine))
              | inr later ↦
                  rooms-IsAccepted xs room w1 final (sym (ap (λ o. o.0) step) ∙ done) rest
                    (delete_objects_keeps x w there) later
            ]
      ]

  -- What the end of a clean-up that removed the user shows: the objects, and the disconnection, which
  -- led to the state of the other services.
  abbrev pub IsCleanedUp : RoomRow → World db jobs inner → Type 0
  IsCleanedUp room w =
      All (IsAccepted w.calls) (db.recordings.find_many (λ r. same r.room_id room.id) t)
      × ((s : inner.State) × ((inner.disconnect user_id s).0 ≡ ok tt)
          × ((inner.disconnect user_id s).1 ≡ w.services))

  -- The end of the deletion.
  abbrev erase : M (World db jobs inner) (Unit {0})
  erase = do delete_owned_avatar db jobs inner env user.image; delete_user db jobs inner env user_id

  abbrev IsAfter : World db jobs inner → World db jobs inner → Type 0
  IsAfter w0 w = Extends w0.calls w.calls × (w.services ≡ w0.services)

  abbrev delete_key : Option String → M (World db jobs inner) (Unit {0})
  delete_key o = elim o [ none ↦ pure tt | some key ↦ call db jobs inner env (delete_object key) ]

  delete_key_keeps : (o : Option String) (w : World db jobs inner) → IsAfter w (delete_key o w).1
  delete_key_keeps none w = (([], append-nil w.calls), refl)
  delete_key_keeps (some key) w = ((delete_object key ∷ [], refl), refl)

  delete_owned_avatar_keeps :
      (url : Option String) (w : World db jobs inner)
      → IsAfter w (delete_owned_avatar db jobs inner env url w).1
  unfolding delete_owned_avatar avatar_of
  delete_owned_avatar_keeps url w = delete_key_keeps (avatar_of db jobs inner env url) w

  erase_keeps : (w : World db jobs inner) → IsAfter w (erase w).1
  unfolding delete_user
  erase_keeps w =
      let gone = delete_owned_avatar db jobs inner env user.image w in
      let kept = delete_owned_avatar_keeps user.image w in
      proceed_keeps (IsAfter w) (λ _. delete_user db jobs inner env user_id) gone.0 gone.1
        (λ _. kept) kept

  -- What the rest of the deletion is after the rooms are closed.
  abbrev drop_all : M (World db jobs inner) (Unit {0})
  drop_all = do
    stop_deliveries db jobs inner env user_id
    each (delete_objects db jobs inner env) user.rooms
    serve db jobs inner env (inner.disconnect user_id)
    erase

  drop_all_out :
      (room : RoomRow) (w : World db jobs inner)
      → IsThere w
      → IsAmong room user.rooms
      → find_user user_id (drop_all w).1.users ≡ none
      → IsCleanedUp room (drop_all w).1
  unfolding stop_deliveries
  drop_all_out room w there among gone =
      let w1 = (stop_deliveries db jobs inner env user_id w).1 in
      let deleted = each (delete_objects db jobs inner env) user.rooms w1 in
      let kept =
        each_keeps IsThere (delete_objects db jobs inner env) delete_objects_keeps user.rooms w1
          there in
      let cut = serve db jobs inner env (inner.disconnect user_id) deleted.1 in
      let (longer, same_services) = erase_keeps cut.1 in
      proceed_out (IsCleanedUp room)
        (λ _. do serve db jobs inner env (inner.disconnect user_id); erase) deleted.0 deleted.1
        kept.0 gone
        (λ x accepted gone1.
          proceed_out (IsCleanedUp room) (λ _. erase) cut.0 cut.1 kept.0 gone1
            (λ y severed gone2. (
              rooms-IsAccepted user.rooms room w1 (erase cut.1).1.calls accepted longer there among,
              (deleted.1.services, severed, sym same_services),
            )))

  -- No delivery of the user's is being uploaded.
  abbrev pub IsFree : World db jobs inner → Type 0
  IsFree w =
      is_some
        (db.deliveries.find_first (is_upload db jobs inner env user_id w) (λ d. 0) w.deliveries)
      ≡ false

  IsFree-before : (w0 w : World db jobs inner) → IsBefore w0 w → IsFree w → IsFree w0
  unfolding is_upload of_user
  IsFree-before w0 w (there, same_rows) free =
      subst
        (λ (rows : ℕ × db.recordings.Table × db.deliveries.Table).
          is_some (
            db.deliveries.find_first
              (λ d.
                is_uploading d.status
                && (later_than rows.0 d.lease_until
                    && holds (λ r. same r.host_user_id user_id)
                        (db.recordings.find_unique d.recording_id rows.1)))
              (λ d. 0) rows.2)
          ≡ false)
        same_rows free

  delete_all_out :
      (room : RoomRow) (w : World db jobs inner)
      → IsThere w
      → IsAmong room user.rooms
      → find_user user_id (delete_all db jobs inner env user_id user w).1.users ≡ none
      → IsFree w × IsCleanedUp room (delete_all db jobs inner env user_id user w).1
  unfolding delete_all require_no_upload
  delete_all_out room w there among gone =
      elim (Bool-cases (
        is_some (
          db.deliveries.find_first (is_upload db jobs inner env user_id w) (λ d. 0)
            w.deliveries))) [
              | inl e ↦ absurd (ground (arith, e, gone, there))
              | inr e ↦
                  let closed = each (close_room db jobs inner env) user.rooms w in
                  let kept =
                    each_keeps IsThere (close_room db jobs inner env) close_room_keeps user.rooms w
                      there in
                  let rest : find_user user_id (proceed (λ _. drop_all) closed.0 closed.1).1.users
                      ≡ none =
                    subst
                      (λ b.
                        let checked = throw_if b Exception.failure w in
                        find_user user_id
                          (proceed
                            (λ (x : Unit {0}). do
                              each (close_room db jobs inner env) user.rooms
                              drop_all)
                            checked.0 checked.1).1.users
                        ≡ none)
                      e gone in
                  (
                    e,
                    rw (e) (
                        proceed_out (IsCleanedUp room) (λ _. drop_all) closed.0 closed.1 kept.0 rest
                          (λ x fine gone2. drop_all_out room closed.1 kept among gone2)),
                  )
            ]

  abbrev knock_out : String → M (World db jobs inner) (Unit {0})
  knock_out name = serve db jobs inner env (inner.remove_pending_knocks name user_id)

  -- An account goes last: when the clean-up removes a user who was there, no delivery of theirs was
  -- being uploaded when it began; among its calls the object storage accepted the deletion of every
  -- recording of every room of theirs; and it leaves the other services in the state that a successful
  -- disconnection of the user's storage led to.
  pub cleanup_deletes_last :
      (room : RoomRow) (r : RecordingRow) (w : World db jobs inner)
      → find_user user_id w.users ≡ some user
      → w.recordings ≡ t
      → IsAmong room user.rooms
      → db.recordings.find_unique r.id t ≡ some r
      → r.room_id ≡ room.id
      → find_user user_id (cleanup db jobs inner env user_id w).1.users ≡ none
      → let w' = (cleanup db jobs inner env user_id w).1 in
        IsFree w
        × IsAccepted w'.calls r
        × ((s : inner.State) × ((inner.disconnect user_id s).0 ≡ ok tt)
            × ((inner.disconnect user_id s).1 ≡ w'.services))
  unfolding cleanup delete_found
  cleanup_deletes_last room r w found rows among stored here gone =
      let P : World db jobs inner → Type 0 = λ w'. IsFree w × IsCleanedUp room w' in
      let finish = λ (w' : World db jobs inner).
        delete_found db jobs inner env user_id (find_user user_id w'.users) w' in
      let leave = λ (rooms : List String). each (leave_room db jobs inner env user_id) rooms in
      let oust = call db jobs inner env (remove_account_participants user_id) in
      let listed = list_rooms db jobs inner env w in
      let (free, cleaned_up) : P (cleanup db jobs inner env user_id w).1 =
        proceed_out P (λ rooms. do each knock_out rooms; leave rooms; oust; finish) listed.0
          listed.1 found gone
          (λ rooms e gone1.
            let removed = each knock_out rooms listed.1 in
            let kept =
              each_keeps (IsBefore w) knock_out (λ name w' there. there) rooms listed.1
                (found, refl) in
            proceed_out P (λ _. do leave rooms; oust; finish) removed.0 removed.1 kept.0 gone1
              (λ x e1 gone2.
                let left = leave rooms removed.1 in
                let kept1 =
                  each_keeps (IsBefore w) (leave_room db jobs inner env user_id)
                    (leave_room_keeps w) rooms removed.1 kept in
                proceed_out P (λ _. do oust; finish) left.0 left.1 kept1.0 gone2
                  (λ y e2 gone3.
                    let ousted = oust left.1 in
                    proceed_out P (λ _. finish) ousted.0 ousted.1 kept1.0 gone3
                      (λ z e3 gone4.
                        let table : ousted.1.recordings ≡ t = ap (λ o. o.1) kept1.1 ∙ rows in
                        let found_so : finish ousted.1
                            ≡ delete_all db jobs inner env user_id user ousted.1 =
                          ap (λ o. delete_found db jobs inner env user_id o ousted.1) kept1.0 in
                        let (idle, cleaned) =
                          delete_all_out room ousted.1 (kept1.0, table) among
                            (sym (ap (λ o. find_user user_id o.1.users) found_so) ∙ gone4) in
                        (
                          IsFree-before w ousted.1 kept1 idle,
                          subst (λ o. IsCleanedUp room o.1) (sym found_so) cleaned,
                        ))))) in
      let (accepted, severed) = cleaned_up in
      (
        free,
        db.recordings.find_many_all (IsAccepted (cleanup db jobs inner env user_id w).1.calls)
            (λ r. same r.room_id room.id) t r.id r accepted stored (ground arith),
        severed,
      )
