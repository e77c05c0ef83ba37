-- ===== src/Tests/Delivery.antt =====
-- The delivery of recordings on a small database.
use huddle.Prelude.{
  ne_of_str_eq, ◌≡◌, ◌≢◌, ◌≤◌, refl, arith, String-discrete, some, [], ◌∷◌, ◌++◌, length, map, take,
  true, false,
}
use huddle.Archive.{DeliveryRow}
use huddle.Fault.{Exception, ok}
use huddle.DeliveryWorld.{delete_object, World, session, heartbeat_due}
use huddle.Service.{each}
use huddle.Delivery.{
  claim_next_delivery, handle_delivery_error, claimable, claimed_by, on_recording_completed,
  retry_delay,
}
use huddle.Delivery.Lease.{claim_excludes, claim_progress}
use huddle.Delivery.Retry.{handle_delivery_error_drops_lease}
use huddle.DeliveryCycle.{on_event, mark_delivered, delete_expired_local_copies, is_due}
use huddle.DeliveryCycle.Takeover.{each-on_event}
use huddle.DeliveryCycle.Retention.{on_recording_completed_once, delete_expired_local_copies_lem}
use huddle.Tests.Archive.{tables, a_recording, a_delivery, taken, running, worker, archive_with}

abbrev queued_world : World tables
queued_world = archive_with (a_recording ∷ []) (a_delivery ∷ [])

abbrev taken_world : World tables
taken_world = archive_with (a_recording ∷ []) (taken ∷ [])

methods : Unit {0}
unfolding claim_next_delivery handle_delivery_error on_recording_completed retry_delay on_event
    mark_delivered delete_expired_local_copies each String-discrete
methods = tt

claimed : (claim_next_delivery tables worker queued_world).0 ≡ ok (some "del")
unfolding methods
claimed = refl

claim_excludes_example :
    (claim_next_delivery tables worker
      (record (claim_next_delivery tables worker queued_world).1 { now = 124_000 })).0
    ≢ ok (some "del")
unfolding methods
claim_excludes_example =
    claim_excludes tables worker worker queued_world
      (record (claim_next_delivery tables worker queued_world).1 { now = 124_000 }) "del"
      (claimed_by "me" 5_000 a_delivery) (claimed_by "me" 5_000 a_delivery) claimed refl refl refl
      (omega arith)

claim_progress_example :
    (c : DeliveryRow) × ((claim_next_delivery tables worker queued_world).0 ≡ ok (some c.id))
    × (c.next_attempt_at ≤ 3_000)
    × (tables.deliveries.find_unique c.id
          (claim_next_delivery tables worker queued_world).1.deliveries
        ≡ some (claimed_by "me" 5_000 c))
unfolding methods
claim_progress_example = claim_progress tables worker queued_world "del" a_delivery refl refl

handle_delivery_error_drops_lease_example :
    (claimable 300_000 taken ≡ false)
    × ((row' : DeliveryRow) × (tables.deliveries.find_unique "del"
            (handle_delivery_error tables worker a_delivery a_recording "conn" Exception.failure
              taken_world).1.deliveries
          ≡ some row')
        × (claimable 300_000 row' ≡ true)
        × (row'.next_attempt_at ≤ 300_000))
unfolding String-discrete retry_delay
handle_delivery_error_drops_lease_example =
    handle_delivery_error_drops_lease tables worker a_delivery taken a_recording "conn" "other"
      Exception.failure 500_000 300_000 taken_world refl refl refl (ne_of_str_eq "other" "me" refl)
      refl (omega arith) (omega arith)

each-on_event_example :
    tables.deliveries.find_unique "del"
      (each
        (on_event tables worker "del")
        (session 1_000 (some "url") 7 ∷ heartbeat_due 30_000 ∷ [])
        taken_world).1.deliveries
    ≡ some taken
unfolding String-discrete
each-on_event_example =
    each-on_event tables worker "del" "del" taken refl
      (session 1_000 (some "url") 7 ∷ heartbeat_due 30_000 ∷ []) taken_world refl

on_recording_completed_once_example :
    let w1 =
      (on_recording_completed tables worker "d1" "rec" "host" (archive_with (running ∷ []) [])).1 in
    let w2 =
      (on_recording_completed tables worker "d2" "rec" "host" (record w1 { now = 9_000_000 })).1 in
    tables.recordings.find_unique "rec" w2.recordings
    ≡ tables.recordings.find_unique "rec" w1.recordings
on_recording_completed_once_example =
    on_recording_completed_once tables worker "d1" "d2" "rec" "host" "rec" 9_000_000
      (archive_with (running ∷ []) [])

abbrev late_world : World tables
late_world = record queued_world { now = 1_000_000 }

-- The storage rejects the deletion here.
delete_expired_local_copies_lem_example :
    let due =
      map
        (λ r. delete_object r.object_key)
        (take 10
          (tables.recordings.find_many (is_due tables worker 1_000_000) (a_recording ∷ []))) in
    ((delete_expired_local_copies tables worker late_world).0 ≡ ok tt)
    × ((delete_expired_local_copies tables worker late_world).1.outside ≡ [] ++ due)
    × (length due ≤ 10)
delete_expired_local_copies_lem_example = delete_expired_local_copies_lem tables worker late_world
