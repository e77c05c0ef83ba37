-- ===== src/DeliveryCycle/Takeover.antt =====
-- A worker whose lease was taken over.
use huddle.Prelude.{◌≡◌, refl, arith, ◌+◌, String, some, List, [], ◌∷◌, false}
use huddle.Archive.{Archive, DeliveryRow}
use huddle.Prisma.{find_unique-update_kept}
use huddle.Service.{each}
use huddle.DeliveryWorld.{UploadEvent, session, heartbeat_due, Environment, World, lease_ms}
use huddle.Delivery.{is_owner}
use huddle.DeliveryCycle.{is_mine, heartbeat, on_event}

module _ (db : Archive) (env : Environment) where
  module _ (id j : String) (d : DeliveryRow)
      (foreign : is_owner env.owner d.lease_owner ≡ false) where
    heartbeat-frame :
        (w : World db)
        → db.deliveries.find_unique j w.deliveries ≡ some d
        → db.deliveries.find_unique j (heartbeat db env id w).1.deliveries ≡ some d
    unfolding heartbeat
    heartbeat-frame w held = ground (
      arith,
      held,
      find_unique-update_kept db.deliveries j (is_mine db env id)
          (λ d. record d { lease_until = some (w.now + lease_ms) }) w.deliveries d (λ r. refl) held
          (ground arith),
    )

    on_event-frame :
        (event : UploadEvent) (w : World db)
        → db.deliveries.find_unique j w.deliveries ≡ some d
        → db.deliveries.find_unique j (on_event db env id event w).1.deliveries ≡ some d
    unfolding on_event
    on_event-frame (session wait url offset) w held =
        find_unique-update_kept db.deliveries j (is_mine db env id) _ w.deliveries d (λ r. refl)
          held (ground arith)
    on_event-frame (heartbeat_due wait) w held =
        heartbeat-frame (record w { now = w.now + wait }) held

    -- The progress of an upload, whatever happens in it and however long it takes, changes no
    -- delivery whose lease is not the worker's own.
    pub each-on_event :
        (events : List UploadEvent) (w : World db)
        → db.deliveries.find_unique j w.deliveries ≡ some d
        → db.deliveries.find_unique j (each (on_event db env id) events w).1.deliveries ≡ some d
    unfolding each
    each-on_event [] w held = held
    each-on_event (event ∷ events) w held =
        ground
          (arith, on_event-frame event w held, each-on_event events (on_event db env id event w).1)
