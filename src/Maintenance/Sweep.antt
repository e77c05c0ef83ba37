-- ===== src/Maintenance/Sweep.antt =====
-- What a sweep leaves alone.
use huddle.Prelude.{
  ℕ, ◌≡◌, inl, inr, refl, sym, subst, String, Option, none, some, List, [], ◌∷◌, ◌++◌, Bool, true,
  false, if◌then◌else◌, Bool-cases, arith,
}
use huddle.Fault.{Result-cases}
use huddle.Service.{each, each_keeps, proceed_keeps}
use huddle.Maintenance.{
  MaintenanceState, MaintenanceCleanup, MaintenanceCall, list_active_rooms, stop_egress, end_room,
  World,
}
use huddle.Maintenance.Worker.{
  RoomCleanup, ActiveRoom, Environment, queued, is_active, list_rooms, sweep, clean, drain,
  sweep_all, in_lock, attempt, call, tick,
}

module _ (inner : RoomCleanup) where
  -- A sweep changes neither the state nor the clock, and queues nothing unless it is active.
  module _ (env : Environment) (state : Option MaintenanceState) (now : ℕ) where
    abbrev pub IsIdle : World inner.Rooms → Type 0
    IsIdle w = (w.state ≡ state) × (w.now ≡ now)

    abbrev pub IsQuiet : World inner.Rooms → Type 0
    IsQuiet w = (w.state ≡ state) × (w.now ≡ now) × (w.cleanup ≡ [])

    clean-IsIdle :
        (remaining : List ActiveRoom) (item : MaintenanceCleanup) (w : World inner.Rooms)
        → IsIdle w
        → IsIdle (clean inner env remaining item w).1
    unfolding clean
    clean-IsIdle remaining item w idle = ground arith

    clean-IsQuiet :
        (remaining : List ActiveRoom) (item : MaintenanceCleanup) (w : World inner.Rooms)
        → IsQuiet w
        → IsQuiet (clean inner env remaining item w).1
    unfolding clean
    clean-IsQuiet remaining item w quiet = ground arith

    attempt-IsIdle :
        (c : MaintenanceCall) (w : World inner.Rooms)
        → IsIdle w
        → IsIdle (attempt inner env (call inner env c) w).1
    unfolding attempt call
    attempt-IsIdle c w idle = ground arith

    sweep-IsIdle :
        (s : MaintenanceState) (active : Bool) (room : ActiveRoom) (w : World inner.Rooms)
        → IsIdle w
        → IsIdle (sweep inner env s active room w).1
    unfolding sweep call
    sweep-IsIdle s false room w idle = idle
    sweep-IsIdle s true room w idle =
        let body = λ (id : String). attempt inner env (call inner env (stop_egress id)) in
        let w1 = record w { cleanup = queued room w.cleanup } in
        let stopped = each body (env.recording room.name) w1 in
        let kept =
          each_keeps IsIdle body (λ id. attempt-IsIdle (stop_egress id)) (env.recording room.name)
            w1 idle in
        proceed_keeps IsIdle (λ _. attempt inner env (call inner env (end_room room.name)))
          stopped.0 stopped.1 (λ _. attempt-IsIdle (end_room room.name) stopped.1 kept) kept

    sweep-IsQuiet :
        (s : MaintenanceState) (room : ActiveRoom) (w : World inner.Rooms)
        → IsQuiet w
        → IsQuiet (sweep inner env s false room w).1
    unfolding sweep call
    sweep-IsQuiet s room w quiet = quiet

    -- The drain, for either of the two.
    drain_through :
        (P : World inner.Rooms → Type 0)
        → ((remaining : List ActiveRoom) (item : MaintenanceCleanup) (w : World inner.Rooms)
            → P w
            → P (clean inner env remaining item w).1)
        → ((w : World inner.Rooms)
            → P w
            → P (record w { calls = w.calls ++ list_active_rooms ∷ [] }))
        → (w : World inner.Rooms) → P w
        → P (drain inner env w).1
    unfolding drain list_rooms
    drain_through P cleaned listed w before = elim (Result-cases (env.active_rooms w.calls)) [
      | inl (rooms, e) ↦
          rw (e)
            (each_keeps P (clean inner env rooms) (cleaned rooms) w.cleanup _ (listed w before))
      | inr (x, e) ↦ rw (e) (listed w before)
    ]

    sweep_all_through :
        (P : World inner.Rooms → Type 0) (s : MaintenanceState)
        → ((remaining : List ActiveRoom) (item : MaintenanceCleanup) (w : World inner.Rooms)
            → P w
            → P (clean inner env remaining item w).1)
        → ((w : World inner.Rooms)
            → P w
            → P (record w { calls = w.calls ++ list_active_rooms ∷ [] }))
        → (w : World inner.Rooms)
        → ((room : ActiveRoom) (w' : World inner.Rooms)
            → P w'
            → P (sweep inner env s (is_active w.now s) room w').1)
        → P w
        → P (sweep_all inner env s w).1
    unfolding sweep_all list_rooms
    sweep_all_through P s cleaned listed w swept before =
        elim (Result-cases (env.active_rooms w.calls)) [
          | inl (rooms, e) ↦
              let done =
                each (sweep inner env s (is_active w.now s)) rooms
                  (record w { calls = w.calls ++ list_active_rooms ∷ [] }) in
              let kept =
                each_keeps P (sweep inner env s (is_active w.now s)) swept rooms _
                  (listed w before) in
              rw (e) (
                proceed_keeps P (λ _. drain inner env) done.0 done.1
                  (λ _. drain_through P cleaned listed done.1 kept) kept)
          | inr (x, e) ↦ rw (e) (listed w before)
        ]

  pub tick-world :
      (env : Environment) (w : World inner.Rooms)
      → (tick inner env w).1 ≡ (if env.is_locked then (in_lock inner env w.state w).1 else w)
  unfolding tick attempt
  tick-world env w = ground arith

  pub tick_through :
      (env : Environment) (P : World inner.Rooms → Type 0) (w : World inner.Rooms)
      → P w
      → P (in_lock inner env w.state w).1
      → P (tick inner env w).1
  tick_through env P w before after =
      subst P (sym (tick-world env w)) (elim (Bool-cases env.is_locked) [
        | inl e ↦
            let eq : (if env.is_locked then (in_lock inner env w.state w).1 else w)
                ≡ (in_lock inner env w.state w).1 =
              ground (arith, e) in
            subst P (sym eq) after
        | inr e ↦
            let eq : (if env.is_locked then (in_lock inner env w.state w).1 else w) ≡ w =
              ground (arith, e) in
            subst P (sym eq) before
      ])

  pub in_lock-IsIdle :
      (env : Environment) (o : Option MaintenanceState) (w : World inner.Rooms)
      → IsIdle env w.state w.now (in_lock inner env o w).1
  unfolding in_lock
  in_lock-IsIdle env none w = (refl, refl)
  in_lock-IsIdle env (some s) w =
      sweep_all_through env w.state w.now (IsIdle env w.state w.now) s
        (clean-IsIdle env w.state w.now) (λ w' idle. idle) w
        (λ room. sweep-IsIdle env w.state w.now s (is_active w.now s) room) (refl, refl)

  pub in_lock-IsQuiet :
      (env : Environment) (o : Option MaintenanceState) (w : World inner.Rooms)
      → w.cleanup ≡ []
      → ((s : MaintenanceState) → o ≡ some s → is_active w.now s ≡ false)
      → IsQuiet env w.state w.now (in_lock inner env o w).1
  unfolding in_lock
  in_lock-IsQuiet env none w nothing inactive = (refl, refl, nothing)
  in_lock-IsQuiet env (some s) w nothing inactive =
      sweep_all_through env w.state w.now (IsQuiet env w.state w.now) s
        (clean-IsQuiet env w.state w.now) (λ w' quiet. quiet) w
        (λ room w' quiet.
          subst (λ b. IsQuiet env w.state w.now (sweep inner env s b room w').1)
            (sym (inactive s refl)) (sweep-IsQuiet env w.state w.now s room w' quiet))
        (refl, refl, nothing)
