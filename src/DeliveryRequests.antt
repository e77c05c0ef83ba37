-- ===== src/DeliveryRequests.antt =====
-- What hosts and operators ask of apps/api/src/rooms/recording-delivery.service.ts: the backfill, resuming
-- after action was required, and the preview of the retention.
use huddle.Prelude.{
  keep, ℕ, ◌+◌, ◌==◌, String, Option, none, some, List, [], ◌∷◌, length, not, ◌&&◌, if◌then◌else◌,
  same,
}
use huddle.Archive.{
  Archive, RecordingRow, DeliveryStatus, ConnectionRow, is_connected, is_completed,
}
use huddle.Prisma.{update_unique, holds}
use huddle.Fault.{ok}
use huddle.Service.{pure, ◌>>=◌, ◌>>◌, each}
use huddle.DeliveryWorld.{
  Environment, World, Service, clock, on_deliveries, on_connections, active_connection,
}
use huddle.Delivery.{later_than, is_null, is_action_required, new_delivery, recording_of}
use huddle.DeliveryCycle.{delivery_for, undelivered}

module _ (db : Archive) (env : Environment) where
  queue_again : ℕ → (String → String) → RecordingRow → Service db (Unit {0})
  queue_again now fresh r = on_deliveries db (λ t. (
    tt,
    elim (db.deliveries.find_first (λ d. same d.recording_id r.id) (λ d. 0) t) [
      | none ↦ db.deliveries.create (new_delivery (fresh r.id) r.id now) t
      | some d ↦
          update_unique db.deliveries d.id
            (λ row. record row {
              status = DeliveryStatus.queued;
              next_attempt_at = now;
              last_error = none;
            })
            t
    ],
  ))

  keep_undelivered : World db → List RecordingRow → List RecordingRow
  keep_undelivered w = keep (λ r. undelivered db env (delivery_for db env r w))

  backfill : (String → String) → String → Option ConnectionRow → Service db ℕ
  unfolding queue_again keep_undelivered
  backfill fresh host_user_id none = pure 0
  backfill fresh host_user_id (some connection) = do
    now ← clock db
    count ← on_connections db (
        db.connections.update_many
          (λ c.
            same c.id connection.id && (is_null c.backfill_requested_at && is_connected c.status))
          (λ c. record c { backfill_requested_at = some now }))
    if not (count == 1) then pure 0 else (λ w.
        let queueable = keep_undelivered w (
          db.recordings.find_many
            (λ r.
              is_completed r.status
              && (is_null r.local_deleted_at
                  && (later_than now r.local_delete_after && same r.host_user_id host_user_id)))
            w.recordings) in
        let rest : Service db ℕ = (do
          each (queue_again now fresh) queueable
          pure (length queueable)) in
        rest w)

  -- `fresh` gives the ids of new rows. The upserts run one after the other here.
  unfoldable pub queue_backfill : (String → String) → String → Service db ℕ
  unfolding backfill
  queue_backfill fresh host_user_id = do
    connection ← active_connection db host_user_id
    backfill fresh host_user_id connection

  unfoldable pub resume_action_required : String → Service db (Unit {0})
  resume_action_required host_user_id = do
    now ← clock db
    (λ w. (
      ok tt,
      record w {
        deliveries =
            (db.deliveries.update_many
              (λ d.
                is_action_required d.status
                && holds (λ r. same r.host_user_id host_user_id && is_null r.local_deleted_at)
                    (recording_of db env d w))
              (λ d. record d {
                status = DeliveryStatus.queued;
                next_attempt_at = now;
                last_error = none;
                action_notified_at = none;
              })
              w.deliveries).1;
      },
    ))

  abbrev size_of : RecordingRow → ℕ
  size_of r = elim r.size_bytes [ none ↦ 0 | some n ↦ n ]

  abbrev total_size : List RecordingRow → ℕ
  total_size [] = 0
  total_size (r ∷ rs) = size_of r + total_size rs

  -- The number of affected objects, their bytes and the retention.
  unfoldable pub retention_preview : Service db (ℕ × ℕ × ℕ)
  retention_preview w =
      let kept =
        db.recordings.find_many (λ r. is_completed r.status && is_null r.local_deleted_at)
          w.recordings in
      (ok (length kept, total_size kept, env.local_retention_hours), w)
