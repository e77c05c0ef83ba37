-- ===== src/RoomsWorld.antt =====
-- The world of apps/api/src/rooms/rooms.service.ts: its data, the state that it works on, and what
-- answers it from outside. Messages of faults are left out.
use huddle.Prelude.{ℕ, String, Option, none, some, List, [], ◌∷◌, ◌++◌, Bool, same, if◌then◌else◌}
use huddle.Redis.{Store}
use huddle.Act.{Act}
use huddle.Fault.{Exception, Result, ok, FaultCode}
use huddle.Service.{M, pure, throw}

pub record AuthUser : Type 0 where
  pub id : String
  pub name : String
  pub image : Option String

pub record RoomRow : Type 0 where
  pub slug : String
  pub host_user_id : String
  pub host_key : String
  pub scheduled_start : Option ℕ
  pub created_at : ℕ

pub record RejoinMetadata : Type 0 where
  pub grant_id : String
  pub room_sid : String

-- The options of `LivekitService.mintToken`.
pub record TokenOptions : Type 0 where
  pub room : String
  pub identity : String
  pub name : String
  pub host : Bool
  pub image : Option String
  pub account_user_id : Option String
  pub direct_rejoin : Option RejoinMetadata

-- What the service asks LiveKit to do.
pub data LivekitCall : Type 0 where
  mint_token : TokenOptions → LivekitCall
  create_livekit_room mute_all_mics_except_host : String → LivekitCall
  set_mute_on_entry_flag : String → Bool → LivekitCall
  set_participant_muted : String → String → Bool → LivekitCall
  remove_participant : String → String → LivekitCall

-- Prisma's delegate for rooms, which throws the unique violation for a slug that is taken.
pub record NewRoom : Type 0 where
  pub slug : String
  pub host_key : String
  pub host_user_id : String
  pub scheduled_start : Option ℕ

pub record Rooms : Type 1 where
  pub Table : Type 0
  pub find_by_slug : String → Table → Option RoomRow
  pub insert : NewRoom → Table → Result RoomRow × Table
  pub upcoming : String → ℕ → Table → List RoomRow

pub record World (Table : Type 0) : Type 0 where
  pub now : ℕ
  pub redis : Store
  pub rooms : Table
  pub livekit : List LivekitCall

-- LiveKit may answer by all that it was asked to do before; `none` is a rejection. The answer to a
-- call is a token, a SID or nothing of interest. `meanwhile` is what other requests do to Redis
-- while a token is minted. `fresh_identity` is identity.ts with its random suffix, and `trim` the
-- method of JavaScript's strings.
pub record Environment : Type 0 where
  pub answer : List LivekitCall → LivekitCall → Option String
  pub room_sid : List LivekitCall → String → Option (Option String)
  pub mute_on_entry : List LivekitCall → String → Option Bool
  pub is_connected : List LivekitCall → String → String → Option Bool
  pub meanwhile : Store → Store
  pub fresh_identity : String → String
  pub trim : String → String
  pub livekit_url : String

abbrev pub or_throw {ℓ} : {W : Type 0} {A : Type ℓ} → Option A → Exception → M W A
or_throw none e = throw e
or_throw (some a) e = pure a

-- The truthy reading of an optional text.
abbrev pub truthy : Option String → Option String
truthy none = none
truthy (some s) = if same s "" then none else some s

abbrev pub Service {ℓ} : Rooms → Type ℓ → Type ℓ
Service db A = M (World db.Table) A

module _ (db : Rooms) (env : Environment) where
  abbrev pub redis_call {ℓ} : {A : Type ℓ} → (ℕ → Act A) → Service db A
  redis_call act w = let (a, r) = act w.now w.redis in (ok a, record w { redis = r })

  abbrev pub clock : Service db ℕ
  clock w = (ok w.now, w)

  abbrev pub livekit_call : LivekitCall → Service db String
  livekit_call c w =
      or_throw (env.answer w.livekit c) Exception.failure
        (record w { livekit = w.livekit ++ c ∷ [] })

  -- Minting takes time: other requests go on in Redis.
  unfoldable pub mint : TokenOptions → Service db String
  mint options w = livekit_call (mint_token options) (record w { redis = env.meanwhile w.redis })

  unfoldable pub get_room_sid : String → Service db (Option String)
  get_room_sid room w = or_throw (env.room_sid w.livekit room) Exception.failure w

  unfoldable pub get_mute_on_entry : String → Service db Bool
  get_mute_on_entry room w = or_throw (env.mute_on_entry w.livekit room) Exception.failure w

  unfoldable pub require_room : String → Service db RoomRow
  require_room slug w =
      or_throw (db.find_by_slug slug w.rooms) (Exception.not_found FaultCode.room_not_found) w
