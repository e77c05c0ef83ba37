-- ===== src/Records.antt =====
-- What the API keeps in Redis: the interfaces of rooms.state.ts and remote-control.state.ts, the
-- keys that the two services build, and the values under them.
--
-- An ISO timestamp is represented by its instant in milliseconds. A JSON text is represented by
-- the value that it spells, so that `JSON.parse` of what `JSON.stringify` wrote gives the value
-- back, and a text of another kind reads as no value.
use huddle.Prelude.{ℕ, String, Option, none, some, Bool, String-discrete}

-- rooms.state.ts

pub data KnockStatus : Type 0 where
  pending admitted denied : KnockStatus

pub record Knock : Type 0 where
  pub knock_id : String
  pub room : String
  pub name : String
  pub user_id : Option String
  pub image : Option String
  pub status : KnockStatus
  pub requested_at : ℕ
  pub identity : Option String
  pub token : Option String

pub record DirectRejoinGrant : Type 0 where
  pub grant_id : String
  pub room : String
  pub room_sid : String
  pub user_id : String
  pub identity : String
  pub created_at : ℕ

pub record RecordingShareConsent : Type 0 where
  pub room : String
  pub room_sid : String
  pub user_id : String
  pub identity : String
  pub account_binding : String
  pub consented_at : ℕ

-- remote-control.state.ts

pub record PendingRequest : Type 0 where
  pub request_id : String
  pub room : String
  pub sharer_identity : String
  pub sharer_name : String
  pub controller_identity : String
  pub controller_name : String
  pub requested_at : ℕ
  pub expires_at : ℕ
  pub controller_token_expires_at : ℕ

pub data GrantStatus : Type 0 where
  awaiting_agent active : GrantStatus

pub record ActiveGrant : Type 0 where
  pub session_id : String
  pub room : String
  pub room_id : String
  pub sharer_identity : String
  pub sharer_name : String
  pub controller_identity : String
  pub controller_name : String
  pub agent_identity : String
  pub status : GrantStatus
  pub agent_connected : Bool
  pub started_at : ℕ
  pub renewal_due_at : ℕ
  pub authorization_expires_at : ℕ
  pub bootstrap_digest : Option String

pub record BootstrapGrant : Type 0 where
  pub room : String
  pub session_id : String
  pub digest : String
  pub expires_at : ℕ

-- One constructor for each key template. The templates start with different literals, so keys of
-- two templates differ; keys of one template are told apart by what is put in, which holds as long
-- as no room code or SID has a colon.
pub data Key : Type 0 where
  knock_key direct_rejoin_key direct_rejoin_identity_key : String → String → Key
  index_key direct_rejoin_index_key : String → Key
  consent_key consent_identity_key : String → String → String → Key
  consent_index_key : String → String → Key
  owner_key pending_key active_key bootstrap_key : String → Key

unfoldable pub Key-discrete : Discrete Key
unfolding String-discrete
Key-discrete = hlevel String-discrete

pub data Value : Type 0 where
  text : String → Value
  knock_json : Knock → Value
  rejoin_json : DirectRejoinGrant → Value
  consent_json : RecordingShareConsent → Value
  pending_json : PendingRequest → Value
  active_json : ActiveGrant → Value
  bootstrap_json : BootstrapGrant → Value

-- `redis.get(key)` read as text, or parsed as one of the interfaces; `none` stands for a key that
-- is not there and for a value of another kind.
abbrev pub as_text : Option Value → Option String
as_text (some (text s)) = some s
as_text _ = none

abbrev pub as_knock : Option Value → Option Knock
as_knock (some (knock_json k)) = some k
as_knock _ = none

abbrev pub as_rejoin : Option Value → Option DirectRejoinGrant
as_rejoin (some (rejoin_json g)) = some g
as_rejoin _ = none

abbrev pub as_consent : Option Value → Option RecordingShareConsent
as_consent (some (consent_json c)) = some c
as_consent _ = none

abbrev pub as_pending : Option Value → Option PendingRequest
as_pending (some (pending_json p)) = some p
as_pending _ = none

abbrev pub as_active : Option Value → Option ActiveGrant
as_active (some (active_json g)) = some g
as_active _ = none

abbrev pub as_bootstrap : Option Value → Option BootstrapGrant
as_bootstrap (some (bootstrap_json b)) = some b
as_bootstrap _ = none
