-- ===== src/DeliveryCycle/Retention.antt =====
-- How long a local copy stays.
use mathlib.Core.List.{append-nil, append_assoc}
use huddle.Prelude.{
  ap, ◌∙◌, ◌≡◌, ◌≤◌, refl, sym, arith, Option-cases, ◌++◌, map, take, suc, zero, ℕ, ◌+◌, String,
  Option, List, [], ◌∷◌, length, Bool, ◌&&◌, same,
}
use huddle.Archive.{Archive, RecordingRow, DeliveryRow}
use huddle.Prisma.{updated}
use huddle.Fault.{ok}
use huddle.Service.{each}
use huddle.DeliveryWorld.{
  OutsideCall, delete_object, Environment, World, hours, usable, active_connection,
}
use huddle.Delivery.{with_deadline, is_null, on_recording_completed}
use huddle.DeliveryCycle.{delete_local_copy, is_due, delete_expired_local_copies, delivery_for}

module _ (db : Archive) (env : Environment) where
  -- The recordings after a completion.
  abbrev pub no_deadline : String → RecordingRow → Bool
  no_deadline recording_id r = same r.id recording_id && is_null r.local_expires_at

  pub on_recording_completed-recordings :
      (id recording_id host_user_id k : String) (w : World db)
      → db.recordings.find_unique k
          (on_recording_completed db env id recording_id host_user_id w).1.recordings
        ≡ updated
            (no_deadline recording_id)
            (with_deadline (w.now + hours env.local_retention_hours))
            (db.recordings.find_unique k w.recordings)
  unfolding on_recording_completed active_connection
  on_recording_completed-recordings id recording_id host_user_id k w = ground (
    arith,
    Option-cases (usable (db.connections.find_unique host_user_id w.connections)),
    db.recordings.find_unique-update_many k (no_deadline recording_id)
        (with_deadline (w.now + hours env.local_retention_hours)) w.recordings (λ r. refl),
  )

  pub on_recording_completed_ok :
      (id recording_id host_user_id : String) (w : World db)
      → (on_recording_completed db env id recording_id host_user_id w).0 ≡ ok tt
  unfolding on_recording_completed active_connection
  on_recording_completed_ok id recording_id host_user_id w =
      ground (arith, Option-cases (usable (db.connections.find_unique host_user_id w.connections)))

  -- A completion that is reported again, however much later, changes no deadline of any recording.
  pub on_recording_completed_once :
      (id id' recording_id host_user_id k : String) (t : ℕ) (w : World db)
      → let w1 = (on_recording_completed db env id recording_id host_user_id w).1 in
        let w2 =
          (on_recording_completed db env id' recording_id host_user_id (record w1 { now = t })).1 in
        db.recordings.find_unique k w2.recordings ≡ db.recordings.find_unique k w1.recordings
  on_recording_completed_once id id' recording_id host_user_id k t w =
      let w1 = (on_recording_completed db env id recording_id host_user_id w).1 in
      ground (
        arith,
        on_recording_completed-recordings id recording_id host_user_id k w,
        on_recording_completed-recordings id' recording_id host_user_id k (record w1 { now = t }),
      )

  delete_local_copy-outside :
      (r : RecordingRow) (d : Option DeliveryRow) (w : World db)
      → ((delete_local_copy db env (r, d) w).0 ≡ ok tt)
        × ((delete_local_copy db env (r, d) w).1.outside
            ≡ w.outside ++ delete_object r.object_key ∷ [])
  unfolding delete_local_copy
  delete_local_copy-outside r d w = ground arith

  each-delete_local_copy :
      (rows : List (RecordingRow × Option DeliveryRow)) (w : World db)
      → ((each (delete_local_copy db env) rows w).0 ≡ ok tt)
        × ((each (delete_local_copy db env) rows w).1.outside
            ≡ w.outside ++ map (λ x. delete_object x.0.object_key) rows)
  unfolding each
  each-delete_local_copy [] w = (refl, sym (append-nil w.outside))
  each-delete_local_copy ((r, d) ∷ rows) w =
      let w' = (delete_local_copy db env (r, d) w).1 in
      let (done, calls) = delete_local_copy-outside r d w in
      let (rest, more) = each-delete_local_copy rows w' in
      (
        rw (done) rest,
        rw (done) (more ∙ rw (calls) (append_assoc w.outside (delete_object r.object_key ∷ []) _)),
      )

  map-map_fst :
      (rows : List RecordingRow) (delivery : RecordingRow → Option DeliveryRow)
      → map
          (λ (x : RecordingRow × Option DeliveryRow). delete_object x.0.object_key)
          (map (λ r. (r, delivery r)) rows)
        ≡ map (λ r. delete_object r.object_key) rows
  map-map_fst [] delivery = refl
  map-map_fst (r ∷ rows) delivery =
      ap (λ cs. delete_object r.object_key ∷ cs) (map-map_fst rows delivery)

  length-map-take :
      (n : ℕ) (f : RecordingRow → OutsideCall) (rows : List RecordingRow)
      → length (map f (take n rows)) ≤ n
  length-map-take zero f rows = omega arith
  length-map-take (suc n) f [] = omega arith
  length-map-take (suc n) f (r ∷ rows) = omega (arith, length-map-take n f rows)

  -- A pass over the expired local copies never throws, and it asks the object storage for exactly the
  -- objects of the first ten due recordings, in the order in which the database lists them, whatever
  -- the storage answers: ten deletions at most.
  pub delete_expired_local_copies_lem :
      (w : World db)
      → let due =
          map
            (λ r. delete_object r.object_key)
            (take 10 (db.recordings.find_many (is_due db env w.now) w.recordings)) in
        ((delete_expired_local_copies db env w).0 ≡ ok tt)
        × ((delete_expired_local_copies db env w).1.outside ≡ w.outside ++ due)
        × (length due ≤ 10)
  unfolding delete_expired_local_copies
  delete_expired_local_copies_lem w =
      let rows = take 10 (db.recordings.find_many (is_due db env w.now) w.recordings) in
      let (done, calls) = each-delete_local_copy (map (λ r. (r, delivery_for db env r w)) rows) w in
      (
        done,
        calls ∙ ap (λ cs. w.outside ++ cs) (map-map_fst rows (λ r. delivery_for db env r w)),
        length-map-take 10 (λ r. delete_object r.object_key) _,
      )
