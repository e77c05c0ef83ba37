-- ===== src/Maintenance.antt =====
-- apps/api/src/maintenance/maintenance.service.ts and maintenance.guard.ts, with the check of the origin in
-- maintenance.controller.ts: the maintenance window. Messages of exceptions are left out; texts of
-- the configuration that are absent are `none`.
pub mod Worker
pub mod Queue
pub mod Sweep
pub mod Window
use huddle.Prelude.{
  ℕ, ◌+◌, ◌*◌, String, Option, none, some, List, [], ◌∷◌, ◌++◌, Bool, true, false, not, ◌&&◌, ◌||◌,
  if◌then◌else◌, same, leb, ltb,
}
use huddle.Fault.{Exception, Result, ok, err}
use huddle.Service.{M, pure, throw, ◌>>=◌, ◌>>◌, throw_if}

pub data Phase : Type 0 where
  off scheduled active : Phase

-- The rows of the database.
pub record MaintenanceState : Type 0 where
  pub enabled : Bool
  pub starts_at : ℕ
  pub message : String
  pub actor_id : String

pub record MaintenanceCleanup : Type 0 where
  pub room_sid : String
  pub room_name : String

pub record Status : Type 0 where
  pub phase : Phase
  pub starts_at : Option ℕ
  pub message : String
  pub server_time : ℕ

-- What the worker asks LiveKit and Egress.
pub data MaintenanceCall : Type 0 where
  list_active_rooms : MaintenanceCall
  publish_maintenance : String → Phase → MaintenanceCall
  stop_egress end_room : String → MaintenanceCall

-- `Rooms` is what the cleanup of rooms works on.
pub record World (Rooms : Type 0) : Type 0 where
  pub now : ℕ
  pub state : Option MaintenanceState
  pub cleanup : List MaintenanceCleanup
  pub rooms : Rooms
  pub calls : List MaintenanceCall

pub record Configuration : Type 0 where
  pub owner : Option String
  pub web_origin : Option String
  pub trim : String → String

abbrev pub warning_ms : ℕ
warning_ms = 5 * 60 * 1000

abbrev pub default_message : String
default_message =
    "Huddle is temporarily unavailable while we make improvements. Please check back shortly."

-- `text || DEFAULT_MESSAGE`
abbrev pub message_or : String → String
message_or text = if same text "" then default_message else text

abbrev pub phase_of : ℕ → Option MaintenanceState → Phase
phase_of now none = Phase.off
phase_of now (some s) =
    if s.enabled then (if ltb now s.starts_at then Phase.scheduled else Phase.active) else Phase.off

abbrev pub is_off : Phase → Bool
is_off Phase.off = true
is_off _ = false

abbrev pub is_empty {ℓ} : {A : Type ℓ} → List A → Bool
is_empty [] = true
is_empty (x ∷ xs) = false

-- A repeated Enable keeps the start.
abbrev pub next_start : ℕ → Bool → Option MaintenanceState → ℕ
next_start now enabled none = now + warning_ms
next_start now enabled (some s) = if s.enabled && enabled then s.starts_at else now + warning_ms

module _ (Rooms : Type 0) (config : Configuration) where
  unfoldable pub status : World Rooms → Status
  status w = record {
    phase = phase_of w.now w.state;
    starts_at = elim w.state [
      | none ↦ none
      | some s ↦ if s.enabled then some s.starts_at else none
    ];
    message = elim w.state [ none ↦ default_message | some s ↦ message_or s.message ];
    server_time = w.now;
  }

  owned_by : Option String → Option String → Bool
  owned_by (some owner) (some user) =
      if same (config.trim owner) "" || same user "" then false else same (config.trim owner) user
  owned_by _ _ = false

  unfoldable pub is_owner : Option String → Bool
  unfolding owned_by
  is_owner user_id = owned_by config.owner user_id

  unfoldable pub require_owner : Option String → M (World Rooms) (Unit {0})
  require_owner user_id = throw_if (not (is_owner user_id)) (Exception.refused 403)

  abbrev pub trimmed : Option String → String
  trimmed none = default_message
  trimmed (some text) = message_or (config.trim text)

  unfoldable pub change : Bool → Option String → String → M (World Rooms) Status
  change enabled message actor_id = do
    require_owner (some actor_id)
    (λ w. throw_if (not enabled && not (is_empty w.cleanup)) (Exception.refused 409) w)
    (λ w. (
      ok (tt {0}),
      record w {
        state = some (record {
          enabled = enabled;
          starts_at = next_start w.now enabled w.state;
          message = trimmed message;
          actor_id = actor_id;
        });
      },
    ))
    (λ w. (ok (status w), w))

  unfoldable pub require_admissions_open : M (World Rooms) (Unit {0})
  require_admissions_open w = throw_if (not (is_off (status w).phase)) (Exception.refused 503) w

  -- The guard; `blocked` tells that the handler carries the mark.
  unfoldable pub can_activate : Bool → M (World Rooms) Bool
  can_activate true = do require_admissions_open; pure true
  can_activate false = pure true

  origin_of : Option String → String
  origin_of none = "http://localhost:3000"
  origin_of (some origin) = origin

  is_origin : Option String → Bool
  is_origin none = false
  is_origin (some origin) = same origin (origin_of config.web_origin)

  -- The route that changes the window, for a signed-in user.
  unfoldable pub change_route :
      Option String → Bool → Option String → String → M (World Rooms) Status
  unfolding is_origin origin_of
  change_route origin enabled message user_id = do
    throw_if (not (is_origin origin)) (Exception.refused 403)
    change enabled message user_id
