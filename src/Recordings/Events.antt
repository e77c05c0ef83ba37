-- ===== src/Recordings/Events.antt =====
-- The egress events of apps/api/src/rooms/recordings.service.ts.
use huddle.Prelude.{String, Option, none, some, Bool, true, false, if◌then◌else◌, same}
use huddle.RoomState.{is_empty}
use huddle.Archive.{Archive, RecordingRow, is_completed}
use huddle.Service.{pure, ◌>>=◌, ◌>>◌}
use huddle.Delivery.{on_recording_completed}
use huddle.Metadata.{LivekitServer}
use huddle.RecordingsWorld
use huddle.RecordingsWorld.{
  RoomRow, User, CallParticipant, RecordingCall, ensure_bucket, start_room_composite, stop_egress,
  get_object, World, Environment, Service, find_by_slug, find_by_id, find_user, with_identity,
  matches_account_binding,
}
use huddle.RecordingRows.{EgressInfo, map_status, is_ended, is_truthy, advanced}
use huddle.Recordings.{on_rows, find_by_egress_id, list_active_by_room, set_indicator}

module _ (db : Archive) (lk : LivekitServer) (env : Environment) where
  unfoldable pub complete : String → RecordingRow → Option RoomRow → Service db lk (Unit {0})
  complete id r none = pure tt
  complete id r (some room) =
      RecordingsWorld.on_archive db lk env
        (on_recording_completed db env.delivery id r.id room.host_user_id)

  -- The Recording Indicator after an event.
  unfoldable pub show_state : RecordingRow → Bool → Option String → Service db lk (Unit {0})
  show_state r ended none w = pure tt w
  show_state r ended (some slug) w =
      if ended
      then (if is_empty (list_active_by_room db lk env r.room_id w)
          then set_indicator db lk env slug false w
          else pure tt w)
      else set_indicator db lk env slug true w

  -- The row, and what follows its completion.
  unfoldable pub record_event : String → EgressInfo → RecordingRow → Service db lk (Unit {0})
  unfolding complete
  record_event id info rec = do
    now ← RecordingsWorld.clock db lk env
    on_rows db lk env (λ t. (
      tt {0},
      (db.recordings.update_many (λ r. same r.egress_id info.egress_id)
          (advanced (map_status info.status) now info) t).1,
    ))
    if is_completed (map_status info.status)
        then complete id rec (find_by_id rec.room_id env.rooms)
        else pure tt

  unfoldable pub advance : String → EgressInfo → RecordingRow → Service db lk (Unit {0})
  advance id info rec = do
    record_event id info rec
    show_state rec (is_ended (map_status info.status)) (is_truthy info.room_name)

  -- `id` is the id of the delivery, if one is queued.
  unfoldable pub handle_egress_event : String → EgressInfo → Service db lk (Unit {0})
  handle_egress_event id info w = elim (find_by_egress_id db lk env info.egress_id w) [
    | none ↦ pure tt w
    | some rec ↦ advance id info rec w
  ]
