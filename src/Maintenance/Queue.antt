-- ===== src/Maintenance/Queue.antt =====
-- No room is forgotten: the queue of the maintenance worker.
use huddle.Prelude.{
  ◌≡◌, ◌≢◌, ◌⊎◌, inl, inr, refl, sym, ap, subst, ◌∙◌, String, String-discrete, Option, none, some,
  List, [], ◌∷◌, ◌++◌, Bool, true, false, not, ◌&&◌, if◌then◌else◌, arith,
}
use huddle.Fault.{Result-cases, Result, ok, err}
use huddle.Service.{each, each_keeps, each_ok, proceed, proceed_keeps}
use huddle.Maintenance.{
  MaintenanceState, MaintenanceCleanup, MaintenanceCall, list_active_rooms, stop_egress, end_room,
  World,
}
use huddle.Maintenance.Worker.{
  RoomCleanup, ActiveRoom, Environment, has_sid, is_listed, queued, removed, finish, is_active,
  list_rooms, sweep, clean, drain, sweep_all, attempt, call, in_lock, tick,
}

abbrev pub is_ok {ℓ} : {A : Type ℓ} → Result A → Bool
is_ok (ok a) = true
is_ok (err e) = false

has_sid-append :
    (sid : String) (cs : List MaintenanceCleanup) (c : MaintenanceCleanup)
    → (has_sid sid cs ≡ true) ⊎ (c.room_sid ≡ sid)
    → has_sid sid (cs ++ c ∷ []) ≡ true
has_sid-append sid [] c there = ground arith
has_sid-append sid (x ∷ xs) c there = ground (arith, has_sid-append sid xs c)

has_sid-queued :
    (sid : String) (r : ActiveRoom) (cs : List MaintenanceCleanup)
    → has_sid sid cs ≡ true
    → has_sid sid (queued r cs) ≡ true
has_sid-queued sid r cs there =
    ground
      (arith, has_sid-append sid cs (record { room_sid = r.sid; room_name = r.name }) (inl there))

queued_has : (r : ActiveRoom) (cs : List MaintenanceCleanup) → has_sid r.sid (queued r cs) ≡ true
queued_has r cs =
    ground
      (arith, has_sid-append r.sid cs (record { room_sid = r.sid; room_name = r.name }) (inr refl))

has_sid-removed :
    (sid other : String) (cs : List MaintenanceCleanup)
    → other ≢ sid
    → has_sid sid cs ≡ true
    → has_sid sid (removed other cs) ≡ true
has_sid-removed sid other [] apart there = there
has_sid-removed sid other (c ∷ cs) apart there = ground (arith, has_sid-removed sid other cs apart)

-- What the cleanup of one room leaves of the queue.
clean-cleanup :
    (inner : RoomCleanup) (env : Environment) (remaining : List ActiveRoom)
    (item : MaintenanceCleanup) (w : World inner.Rooms)
    → (clean inner env remaining item w).1.cleanup ≡ (
        if not (is_listed item.room_sid remaining) && is_ok (finish inner env item w.rooms).0
        then removed item.room_sid w.cleanup
        else w.cleanup)
unfolding clean
clean-cleanup inner env remaining item w = ground arith

module _ (inner : RoomCleanup) (env : Environment) (sid : String)
    (fails : (name : String) (r : inner.Rooms)
      → (is_ok (inner.finish_control name r).0
          && is_ok (inner.finish_room name sid (inner.finish_control name r).1).0)
        ≡ false) where
  abbrev IsQueued : World inner.Rooms → Type 0
  IsQueued w = has_sid sid w.cleanup ≡ true

  proceed_fails :
      (name : String) (a : Result (Unit {0})) (r : inner.Rooms)
      → (is_ok a && is_ok (inner.finish_room name sid r).0) ≡ false
      → is_ok (proceed (λ _. inner.finish_room name sid) a r).0 ≡ false
  proceed_fails name (ok x) r failed = failed
  proceed_fails name (err e) r failed = refl

  finish_fails :
      (item : MaintenanceCleanup) (r : inner.Rooms)
      → item.room_sid ≡ sid
      → is_ok (finish inner env item r).0 ≡ false
  unfolding finish
  finish_fails item r e =
      subst
        (λ s.
          is_ok
            (proceed (λ _. inner.finish_room item.room_name s)
              (inner.finish_control item.room_name r).0 (inner.finish_control item.room_name r).1).0
          ≡ false)
        (sym e)
        (proceed_fails item.room_name (inner.finish_control item.room_name r).0
          (inner.finish_control item.room_name r).1 (fails item.room_name r))

  clean_keeps :
      (remaining : List ActiveRoom) (item : MaintenanceCleanup) (w : World inner.Rooms)
      → IsQueued w
      → IsQueued (clean inner env remaining item w).1
  clean_keeps remaining item w there =
      ap (has_sid sid) (clean-cleanup inner env remaining item w)
      ∙ elim (String-discrete item.room_sid sid) [
        | yes e ↦ ground (arith, finish_fails item w.rooms e, there)
        | no differ ↦
            ground (arith, has_sid-removed sid item.room_sid w.cleanup differ there, there)
      ]

  drain_keeps : (w : World inner.Rooms) → IsQueued w → IsQueued (drain inner env w).1
  unfolding drain list_rooms
  drain_keeps w there = elim (Result-cases (env.active_rooms w.calls)) [
    | inl (rooms, e) ↦ rw (e) (
        each_keeps IsQueued (clean inner env rooms) (clean_keeps rooms) w.cleanup
          (record w { calls = w.calls ++ list_active_rooms ∷ [] }) there)
    | inr (x, e) ↦ rw (e) there
  ]

  attempt_lem :
      (c : MaintenanceCall) (w : World inner.Rooms)
      → ((attempt inner env (call inner env c) w).0 ≡ ok tt)
        × ((attempt inner env (call inner env c) w).1.cleanup ≡ w.cleanup)
  unfolding attempt call
  attempt_lem c w = ground arith

  stops_lem :
      (egress_ids : List String) (w : World inner.Rooms)
      → let body =
          λ (egress_id : String). attempt inner env (call inner env (stop_egress egress_id)) in
        ((each body egress_ids w).0 ≡ ok tt) × ((each body egress_ids w).1.cleanup ≡ w.cleanup)
  stops_lem egress_ids w =
      let body =
        λ (egress_id : String). attempt inner env (call inner env (stop_egress egress_id)) in
      (
        each_ok body (λ id w'. (attempt_lem (stop_egress id) w').0) egress_ids w,
        each_keeps (λ w'. w'.cleanup ≡ w.cleanup) body
            (λ id w' same_queue. (attempt_lem (stop_egress id) w').1 ∙ same_queue) egress_ids w
            refl,
      )

  -- An active sweep queues the room and goes on, whatever Egress and LiveKit answer.
  sweep_active :
      (s : MaintenanceState) (room : ActiveRoom) (w : World inner.Rooms)
      → ((sweep inner env s true room w).0 ≡ ok tt)
        × ((sweep inner env s true room w).1.cleanup ≡ queued room w.cleanup)
  unfolding sweep
  sweep_active s room w =
      let w1 = record w { cleanup = queued room w.cleanup } in
      let (stopped, kept) = stops_lem (env.recording room.name) w1 in
      let w2 =
        (each (λ id. attempt inner env (call inner env (stop_egress id))) (env.recording room.name)
          w1).1 in
      let (ended, kept') = attempt_lem (end_room room.name) w2 in
      (rw (stopped) ended, rw (stopped) (kept' ∙ kept))

  sweep_keeps :
      (s : MaintenanceState) (active : Bool) (room : ActiveRoom) (w : World inner.Rooms)
      → IsQueued w
      → IsQueued (sweep inner env s active room w).1
  unfolding sweep call
  sweep_keeps s false room w there = there
  sweep_keeps s true room w there =
      ap (has_sid sid) (sweep_active s room w).1 ∙ has_sid-queued sid room w.cleanup there

  sweeps_queue :
      (s : MaintenanceState) (rooms : List ActiveRoom) (w : World inner.Rooms)
      → is_listed sid rooms ≡ true
      → IsQueued (each (sweep inner env s true) rooms w).1
  unfolding each
  sweeps_queue s [] w listed = cc listed
  sweeps_queue s (room ∷ rooms) w listed =
      let (fine, cleanup) = sweep_active s room w in
      let w1 = (sweep inner env s true room w).1 in
      rw (fine) (elim (String-discrete room.sid sid) [
        | yes e ↦ each_keeps IsQueued (sweep inner env s true) (sweep_keeps s true) rooms w1 (
            ap (has_sid sid) cleanup
            ∙ subst (λ x. has_sid x (queued room w.cleanup) ≡ true) e (queued_has room w.cleanup))
        | no differ ↦ sweeps_queue s rooms w1 (ground (arith, differ, listed))
      ])

  abbrev listed_world : World inner.Rooms → World inner.Rooms
  listed_world w = record w { calls = w.calls ++ list_active_rooms ∷ [] }

  then_drain :
      (a : Result (Unit {0})) (w : World inner.Rooms)
      → IsQueued w
      → IsQueued (proceed (λ _. drain inner env) a w).1
  then_drain a w there =
      proceed_keeps IsQueued (λ _. drain inner env) a w (λ _. drain_keeps w there) there

  sweep_all_keeps :
      (s : MaintenanceState) (w : World inner.Rooms)
      → IsQueued w
      → IsQueued (sweep_all inner env s w).1
  unfolding sweep_all list_rooms
  sweep_all_keeps s w there = elim (Result-cases (env.active_rooms w.calls)) [
    | inl (rooms, e) ↦
        let active = is_active w.now s in
        let swept = each (sweep inner env s active) rooms (listed_world w) in
        rw (e) (
          then_drain swept.0 swept.1 (
            each_keeps IsQueued (sweep inner env s active) (sweep_keeps s active) rooms
              (listed_world w) there))
    | inr (x, e) ↦ rw (e) there
  ]

  sweep_all_queues :
      (s : MaintenanceState) (rooms : List ActiveRoom) (w : World inner.Rooms)
      → is_active w.now s ≡ true
      → env.active_rooms w.calls ≡ ok rooms
      → is_listed sid rooms ≡ true
      → IsQueued (sweep_all inner env s w).1
  unfolding sweep_all list_rooms
  sweep_all_queues s rooms w active e listed =
      let swept = each (sweep inner env s true) rooms (listed_world w) in
      rw (e, active) (then_drain swept.0 swept.1 (sweeps_queue s rooms (listed_world w) listed))

  tick-cleanup :
      (w : World inner.Rooms)
      → (tick inner env w).1.cleanup
        ≡ (if env.is_locked then (in_lock inner env w.state w).1.cleanup else w.cleanup)
  unfolding tick attempt
  tick-cleanup w = ground arith

  locked_queues :
      (s : MaintenanceState) (rooms : List ActiveRoom) (w : World inner.Rooms)
      → is_active w.now s ≡ true
      → env.active_rooms w.calls ≡ ok rooms
      → is_listed sid rooms ≡ true
      → IsQueued (in_lock inner env (some s) w).1
  unfolding in_lock
  locked_queues s rooms w active e listed = sweep_all_queues s rooms w active e listed

  in_lock_keeps :
      (o : Option MaintenanceState) (w : World inner.Rooms)
      → IsQueued w
      → IsQueued (in_lock inner env o w).1
  unfolding in_lock
  in_lock_keeps none w there = there
  in_lock_keeps (some s) w there = sweep_all_keeps s w there

  -- Let the cleanup of a room fail, in the remote control's part or in the rooms' part after it. The
  -- room, when it is in the queue, stays there through a sweep, whatever phase the maintenance is in and
  -- whatever else fails; and when LiveKit lists it at the start of a sweep that holds the lock while the
  -- maintenance is active, it is in the queue after the sweep.
  pub tick_keeps :
      (s : MaintenanceState) (rooms : List ActiveRoom) (w : World inner.Rooms)
      → (has_sid sid w.cleanup ≡ true)
        ⊎ ((env.is_locked ≡ true)
            × (w.state ≡ some s)
            × (is_active w.now s ≡ true)
            × (env.active_rooms w.calls ≡ ok rooms)
            × (is_listed sid rooms ≡ true))
      → has_sid sid (tick inner env w).1.cleanup ≡ true
  tick_keeps s rooms w (inl there) =
      ap (has_sid sid) (tick-cleanup w) ∙ ground (arith, in_lock_keeps w.state w there, there)
  tick_keeps s rooms w (inr (locked, is_state, active, listed, here)) =
      let queued_so : IsQueued (in_lock inner env w.state w).1 =
        subst (λ o. IsQueued (in_lock inner env o w).1) (sym is_state)
          (locked_queues s rooms w active listed here) in
      ap (has_sid sid) (tick-cleanup w) ∙ ground (arith, locked, queued_so)
