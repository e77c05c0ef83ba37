-- ===== src/Tests/Maintenance.antt =====
-- A maintenance window with one room.
use huddle.Prelude.{ℕ, ◌+◌, ◌≡◌, inl, inr, refl, String-discrete, none, some, [], ◌∷◌, true, false}
use huddle.Fault.{Exception, ok, err}
use huddle.Maintenance
use huddle.Maintenance.{
  MaintenanceState, MaintenanceCleanup, World, Configuration, default_message, is_owner,
}
use huddle.Maintenance.Worker.{RoomCleanup, Environment, has_sid, tick}
use huddle.Maintenance.Queue.{tick_keeps}
use huddle.Maintenance.Window.{Step, Reaches, IsClosed, IsWarned, Reaches-IsClosed, change_warning}

-- The cleanup of a room counts what it was asked for; its remote control part fails.
abbrev failing : RoomCleanup
failing = record {
  Rooms = ℕ;
  finish_control = λ name n. (err Exception.failure, n + 1);
  finish_room = λ name sid n. (ok tt, n + 1);
}

abbrev config : Configuration
config = record { owner = some "me"; web_origin = none; trim = λ s. s }

abbrev env : Environment
env = record {
  is_locked = true;
  active_rooms = λ calls. ok (record { sid = "RM_1"; name = "abc-defg-hij" } ∷ []);
  accepts = λ calls c. err Exception.failure;
  recording = λ name. "EG_1" ∷ [];
}

abbrev opened : World ℕ
opened = record { now = 1_000; state = none; cleanup = []; rooms = 0; calls = [] }

abbrev enabled : MaintenanceState
enabled = record { enabled = true; starts_at = 500; message = default_message; actor_id = "me" }

abbrev shut : World ℕ
shut = record opened { state = some enabled }

tick_keeps_example : has_sid "RM_1" (tick failing env shut).1.cleanup ≡ true
unfolding String-discrete
tick_keeps_example =
    tick_keeps failing env "RM_1" (λ name n. refl) enabled
      (record { sid = "RM_1"; name = "abc-defg-hij" } ∷ []) shut
      (inr (refl, refl, refl, refl, refl))

Reaches-IsClosed_example :
    IsClosed failing config
      (Maintenance.change ℕ config false none "me" (tick failing env shut).1).1
Reaches-IsClosed_example =
    Reaches-IsClosed failing config shut _
      (Reaches.and_then (Step.sweeping env shut)
        (Reaches.and_then (Step.ask false none "me" (tick failing env shut).1) Reaches.here))
      (inl refl)

change_warning_example :
    let w1 = (Maintenance.change ℕ config true none "me" opened).1 in
    let w2 = (Maintenance.change ℕ config true none "me" (record w1 { now = w1.now + 60_000 })).1 in
    IsWarned failing config (60_000 + 240_000) (record w2 { now = w2.now + 240_000 })
unfolding String-discrete is_owner
change_warning_example =
    change_warning failing config none none "me" "me" 60_000 240_000 opened refl refl
