-- ===== src/Maintenance/Worker.antt =====
-- apps/api/src/maintenance/maintenance.worker.ts: one sweep. The rows of the queue are committed on their
-- own, so they stay when the sweep fails. A sweep is one step here: the limit of 60 seconds on its
-- transaction, after which the lock is free while the sweep goes on, is left out.
use huddle.Prelude.{
  ℕ, String, Option, none, some, List, [], ◌∷◌, ◌++◌, Bool, true, false, not, ◌&&◌, if◌then◌else◌,
  same, leb, keep,
}
use huddle.Fault.{Result, ok}
use huddle.Service.{M, pure, ◌>>=◌, ◌>>◌, try_catch, each}
use huddle.Maintenance.{
  Phase, MaintenanceState, MaintenanceCleanup, MaintenanceCall, list_active_rooms,
  publish_maintenance, stop_egress, end_room, World,
}

-- The services that clean up after a room: `remoteControl.onRoomFinished` and `rooms.onRoomFinished`.
pub record RoomCleanup : Type 1 where
  pub Rooms : Type 0
  pub finish_control : String → M Rooms (Unit {0})
  pub finish_room : String → String → M Rooms (Unit {0})

pub record ActiveRoom : Type 0 where
  pub sid : String
  pub name : String

-- LiveKit and Egress answer by what they were asked before. `is_locked` tells that the advisory lock was
-- taken. `recording` gives the running recordings of a room.
pub record Environment : Type 0 where
  pub is_locked : Bool
  pub active_rooms : List MaintenanceCall → Result (List ActiveRoom)
  pub accepts : List MaintenanceCall → MaintenanceCall → Result (Unit {0})
  pub recording : String → List String

abbrev pub has_sid : String → List MaintenanceCleanup → Bool
has_sid sid [] = false
has_sid sid (c ∷ cs) = let later = has_sid sid cs in if same c.room_sid sid then true else later

abbrev pub is_listed : String → List ActiveRoom → Bool
is_listed sid [] = false
is_listed sid (r ∷ rs) = let later = is_listed sid rs in if same r.sid sid then true else later

-- The upsert, whose update is empty, and the deletion.
abbrev pub queued : ActiveRoom → List MaintenanceCleanup → List MaintenanceCleanup
queued r cs =
    if has_sid r.sid cs then cs else cs ++ record { room_sid = r.sid; room_name = r.name } ∷ []

abbrev pub removed : String → List MaintenanceCleanup → List MaintenanceCleanup
removed sid = keep (λ c. not (same c.room_sid sid))

abbrev pub is_active : ℕ → MaintenanceState → Bool
is_active now s = s.enabled && leb s.starts_at now

module _ (inner : RoomCleanup) (env : Environment) where
  unfoldable pub call : MaintenanceCall → M (World inner.Rooms) (Unit {0})
  call c w = (env.accepts w.calls c, record w { calls = w.calls ++ c ∷ [] })

  unfoldable pub list_rooms : M (World inner.Rooms) (List ActiveRoom)
  list_rooms w = (env.active_rooms w.calls, record w { calls = w.calls ++ list_active_rooms ∷ [] })

  -- Failures are logged.
  unfoldable pub attempt : M (World inner.Rooms) (Unit {0}) → M (World inner.Rooms) (Unit {0})
  attempt act = try_catch act (λ e. pure tt)

  unfoldable pub sweep : MaintenanceState → Bool → ActiveRoom → M (World inner.Rooms) (Unit {0})
  unfolding call attempt
  sweep s false room =
      call (publish_maintenance room.name (if s.enabled then Phase.scheduled else Phase.off))
  sweep s true room = do
    (λ w. (ok (tt {0}), record w { cleanup = queued room w.cleanup }))
    each (λ egress_id. attempt (call (stop_egress egress_id))) (env.recording room.name)
    attempt (call (end_room room.name))

  unfoldable pub finish : MaintenanceCleanup → M inner.Rooms (Unit {0})
  finish item = do
    inner.finish_control item.room_name
    inner.finish_room item.room_name item.room_sid

  on_rooms : M inner.Rooms (Unit {0}) → M (World inner.Rooms) (Unit {0})
  on_rooms act w = let (a, r) = act w.rooms in (a, record w { rooms = r })

  unfoldable pub clean : List ActiveRoom → MaintenanceCleanup → M (World inner.Rooms) (Unit {0})
  unfolding attempt on_rooms
  clean remaining item =
      if is_listed item.room_sid remaining
      then pure tt
      else attempt (do
        on_rooms (finish item)
        (λ w. (ok tt, record w { cleanup = removed item.room_sid w.cleanup })))

  unfoldable pub drain : M (World inner.Rooms) (Unit {0})
  drain = do remaining ← list_rooms; (λ w. each (clean remaining) w.cleanup w)

  unfoldable pub sweep_all : MaintenanceState → M (World inner.Rooms) (Unit {0})
  sweep_all s = do rooms ← list_rooms; (λ w. each (sweep s (is_active w.now s)) rooms w); drain

  unfoldable pub in_lock : Option MaintenanceState → M (World inner.Rooms) (Unit {0})
  in_lock none = pure tt
  in_lock (some s) = sweep_all s

  -- `running` keeps a second sweep out.
  unfoldable pub tick : M (World inner.Rooms) (Unit {0})
  unfolding attempt in_lock
  tick w = if env.is_locked then attempt (in_lock w.state) w else pure tt w
