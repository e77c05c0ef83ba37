-- ===== src/Delivery/Retry.antt =====
-- What becomes of a delivery whose attempt failed, and of its lease.
use huddle.Prelude.{◌≡◌, ◌≢◌, ◌≤◌, refl, arith, ℕ, ◌+◌, ◌*◌, String, none, some, true, false, same}
use huddle.Archive.{Archive, RecordingRow, DeliveryRow, DeliveryStatus}
use huddle.Fault.{Exception, ok}
use huddle.DeliveryWorld.{Environment, World}
use huddle.Delivery.{retry_delay, claimable, requires_action, handle_delivery_error}

module _ (db : Archive) (env : Environment) where
  -- The row after a failure that is retried.
  abbrev pub retried : DeliveryRow → Exception → ℕ → DeliveryRow → DeliveryRow
  retried d e now row = record row {
    status = DeliveryStatus.queued;
    attempts = d.attempts + 1;
    next_attempt_at = now + retry_delay (d.attempts + 1) * 60_000;
    last_error = some (env.describe e);
    lease_owner = none;
    lease_until = none;
  }

  handle_delivery_error-row :
      (d row : DeliveryRow) (r : RecordingRow) (connection_id : String) (e : Exception)
      (w : World db)
      → requires_action e ≡ false
      → db.deliveries.find_unique d.id w.deliveries ≡ some row
      → ((handle_delivery_error db env d r connection_id e w).0 ≡ ok tt)
        × (db.deliveries.find_unique d.id
              (handle_delivery_error db env d r connection_id e w).1.deliveries
            ≡ some (retried d e w.now row))
  unfolding handle_delivery_error
  handle_delivery_error-row d row r connection_id e w retry found = ground (
    arith,
    db.deliveries.find_unique_key d.id w.deliveries row found,
    db.deliveries.find_unique-update_many d.id (λ d'. same d'.id d.id) (retried d e w.now)
        w.deliveries (λ r. refl),
  )

  -- A worker that fails after another one took its delivery over releases the other's lease: the
  -- delivery is queued again while the other works on it, and is claimable once the delay is over,
  -- however long the other's lease lasts.
  pub handle_delivery_error_drops_lease :
      (d row : DeliveryRow) (r : RecordingRow) (connection_id other : String) (e : Exception)
      (until t : ℕ) (w : World db)
      → requires_action e ≡ false
      → db.deliveries.find_unique d.id w.deliveries ≡ some row
      → row.lease_owner ≡ some other
      → other ≢ env.owner
      → row.lease_until ≡ some until
      → t ≤ until
      → w.now + retry_delay (d.attempts + 1) * 60_000 ≤ t
      → (claimable t row ≡ false)
        × ((row' : DeliveryRow) × (db.deliveries.find_unique d.id
                (handle_delivery_error db env d r connection_id e w).1.deliveries
              ≡ some row')
            × (claimable t row' ≡ true)
            × (row'.next_attempt_at ≤ t))
  handle_delivery_error_drops_lease d row r connection_id other e until t w retry found held foreign
        lasts within over =
      (
        ground arith,
        (
          retried d e w.now row,
          (handle_delivery_error-row d row r connection_id e w retry found).1,
          refl,
          over,
        ),
      )
