-- ===== src/RecordingsWorld.antt =====
-- The world of apps/api/src/rooms/recordings.service.ts: the archive's tables with the delivery worker's
-- state, Redis, the rooms of LiveKit, and what is asked of Egress and the object storage. Messages of
-- faults and log lines are left out.
use huddle.Prelude.{
  ℕ, String, Option, none, some, List, [], ◌∷◌, ◌++◌, Bool, false, if◌then◌else◌, same,
}
use huddle.Redis.{Store}
use huddle.Act.{Act}
use huddle.Archive.{Archive}
use huddle.DeliveryWorld
use huddle.Metadata.{LivekitServer}
use huddle.DownloadToken.{Signing}
use huddle.Fault.{Exception, Result, ok, err, FaultCode}
use huddle.Service.{M, pure, throw}

pub record RoomRow : Type 0 where
  pub id : String
  pub slug : String
  pub host_user_id : String
  pub host_email : String

pub record User : Type 0 where
  pub id : String
  pub email : String
  pub name : Option String

-- participant.guard.ts and `getConnectedParticipant`.
pub record CallParticipant : Type 0 where
  pub identity : String
  pub role : Option String
  pub account_binding : Option String

pub data RecordingCall : Type 0 where
  ensure_bucket : RecordingCall
  start_room_composite : String → String → RecordingCall
  stop_egress get_object : String → RecordingCall

pub record World (db : Archive) (lk : LivekitServer) : Type 0 where
  pub archive : DeliveryWorld.World db
  pub redis : Store
  pub livekit : lk.State
  pub calls : List RecordingCall

-- What is asked for is answered by what was asked before. `object_key` has the room's code and the
-- instant, `room_listing` tells whether LiveKit answers when it is asked for a room's SID,
-- `last_segment` is `key.split('/').pop()`, and `fresh` gives a new row its id.
pub record Environment : Type 0 where
  pub delivery : DeliveryWorld.Environment
  pub rooms : List RoomRow
  pub users : List User
  pub bucket : List RecordingCall → Result (Unit {0})
  pub egress_started : List RecordingCall → Result String
  pub egress_stopped : List RecordingCall → Result (Unit {0})
  pub object : List RecordingCall → Result (String × Option ℕ)
  pub room_listing : String → Result (Unit {0})
  pub participants : String → Result (List CallParticipant)
  pub account_binding_for : String → String
  pub signing : Signing
  pub object_key : String → ℕ → String
  pub last_segment : String → String
  pub fresh : String → String

abbrev pub Service {ℓ} : Archive → LivekitServer → Type ℓ → Type ℓ
Service db lk A = M (World db lk) A

abbrev pub find_by_slug : String → List RoomRow → Option RoomRow
find_by_slug slug [] = none
find_by_slug slug (r ∷ rs) = if same r.slug slug then some r else find_by_slug slug rs

abbrev pub find_by_id : String → List RoomRow → Option RoomRow
find_by_id id [] = none
find_by_id id (r ∷ rs) = if same r.id id then some r else find_by_id id rs

abbrev pub find_user : String → List User → Option User
find_user id [] = none
find_user id (u ∷ us) = if same u.id id then some u else find_user id us

-- livekit.service.ts
abbrev pub with_identity : String → List CallParticipant → Option CallParticipant
with_identity identity [] = none
with_identity identity (p ∷ ps) =
    if same p.identity identity then some p else with_identity identity ps

unfoldable pub matches_account_binding : (String → String) → String → Option String → Bool
matches_account_binding binding_for user_id none = false
matches_account_binding binding_for user_id (some proof) =
    if same proof "" then false else same (binding_for user_id) proof

abbrev pub sid_of : {A : Type 0} → Option (String × A) → Option String
sid_of none = none
sid_of (some (sid, m)) = some sid

module _ (db : Archive) (lk : LivekitServer) (env : Environment) where
  abbrev pub clock : Service db lk ℕ
  clock w = (ok w.archive.now, w)

  abbrev pub on_archive {ℓ} : {A : Type ℓ} → DeliveryWorld.Service db A → Service db lk A
  on_archive act w = let (a, archive) = act w.archive in (a, record w { archive = archive })

  abbrev pub on_redis {ℓ} : {A : Type ℓ} → (ℕ → Act A) → Service db lk A
  on_redis act w = let (a, r) = act w.archive.now w.redis in (ok a, record w { redis = r })

  abbrev pub on_livekit {ℓ} : {A : Type ℓ} → (ℕ → M lk.State A) → Service db lk A
  on_livekit act w = let (a, s) = act w.archive.now w.livekit in (a, record w { livekit = s })

  -- The call is on record, whatever comes of it.
  abbrev pub call {ℓ} :
      {A : Type ℓ} → RecordingCall → (List RecordingCall → Result A) → Service db lk A
  call c answer w = (answer w.calls, record w { calls = w.calls ++ c ∷ [] })

  unfoldable pub get_room_sid : String → Service db lk (Option String)
  get_room_sid slug w = (
    elim (env.room_listing slug) [
      | ok u ↦ ok (sid_of (lk.list_rooms slug w.livekit))
      | err e ↦ err e
    ],
    w,
  )

  unfoldable pub list_connected_participants : String → Service db lk (List CallParticipant)
  list_connected_participants slug w = (env.participants slug, w)

  abbrev pub or_throw {ℓ} : {A : Type ℓ} → Option A → Exception → Service db lk A
  or_throw none e = throw e
  or_throw (some a) e = pure a

  unfoldable pub require_room : String → Service db lk RoomRow
  require_room slug =
      or_throw (find_by_slug slug env.rooms) (Exception.not_found FaultCode.room_not_found)
