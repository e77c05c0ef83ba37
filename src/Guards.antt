-- ===== src/Guards.antt =====
-- apps/api/src/rooms/host.guard.ts and participant.guard.ts, with `verifyParticipantToken` of
-- livekit.service.ts: who may use a room's routes. LiveKit's TokenVerifier and the rooms' table are
-- parameters.
pub mod Participants
use huddle.Prelude.{
  ℕ, ◌*◌, String, Option, none, some, List, [], ◌∷◌, Bool, true, false, not, ◌||◌, ◌&&◌,
  if◌then◌else◌, same, leb,
}
use huddle.Fault.{Exception, FaultCode, Result, ok, err}

-- A header of Node's requests.
pub data Header : Type 0 where
  absent : Header
  one : String → Header
  many : List String → Header

-- A header's first text, if it is truthy.
unfoldable pub header_text : Header → Option String
header_text Header.absent = none
header_text (Header.one s) = if same s "" then none else some s
header_text (Header.many []) = none
header_text (Header.many (s ∷ ss)) = if same s "" then none else some s

-- What the verifier reads from a token; the metadata's `role` and `accountBinding` where they are texts.
pub record TokenClaims : Type 0 where
  pub sub : Option String
  pub name : Option String
  pub video_room : Option String
  pub role : Option String
  pub account_binding : Option String
  pub exp : Option ℕ

pub record ParticipantClaims : Type 0 where
  pub identity : String
  pub name : Option String
  pub room : Option String
  pub role : Option String
  pub account_binding : Option String
  pub token_expires_at : ℕ

pub record CallParticipant : Type 0 where
  pub identity : String
  pub name : String
  pub role : Option String
  pub account_binding : Option String
  pub token_expires_at : ℕ

abbrev is_text : String → Option String → Bool
is_text s none = false
is_text s (some t) = same t s

abbrev or_text : String → Option String → String
or_text other none = other
or_text other (some s) = if same s "" then other else s

claims_of : TokenClaims → Option String → Option ParticipantClaims
claims_of c none = none
claims_of c (some sub) =
    if same sub ""
    then none
    else some (record {
      identity = sub;
      name = c.name;
      room = c.video_room;
      role = c.role;
      account_binding = c.account_binding;
      token_expires_at = elim c.exp [ none ↦ 0 | some exp ↦ exp * 1000 ];
    })

read_claims : Option TokenClaims → Option ParticipantClaims
read_claims none = none
read_claims (some c) = claims_of c c.sub

-- `verifier` gives none for a token that it rejects.
module _ (verifier : String → Option TokenClaims) where
  unfoldable pub verify_participant_token : String → Option ParticipantClaims
  unfolding read_claims claims_of
  verify_participant_token token = read_claims (verifier token)

  abbrev not_participant : Exception
  not_participant = Exception.unauthorized FaultCode.not_participant

  admit : ℕ → String → Option ParticipantClaims → Result CallParticipant
  admit now slug none = err not_participant
  admit now slug (some c) =
      if not (is_text slug c.room) || (leb c.token_expires_at now || is_text "control-agent" c.role)
      then err not_participant
      else ok (record {
        identity = c.identity;
        name = or_text c.identity c.name;
        role = c.role;
        account_binding = c.account_binding;
        token_expires_at = c.token_expires_at;
      })

  guard_token : ℕ → String → Option String → Result CallParticipant
  guard_token now slug none = err not_participant
  guard_token now slug (some token) = admit now slug (verify_participant_token token)

  unfoldable pub participant_guard : ℕ → String → Header → Result CallParticipant
  unfolding guard_token admit
  participant_guard now slug header = guard_token now slug (header_text header)

-- `host_key` gives the key of a room that is there.
module _ (host_key : String → Option String) where
  is_key : Option String → Option String → Bool
  is_key (some key) (some given) = same key given
  is_key _ _ = false

  unfoldable pub host_guard : String → Header → Result Bool
  unfolding is_key
  host_guard slug header =
      if is_key (host_key slug) (header_text header)
      then ok true
      else err (Exception.unauthorized FaultCode.not_host)
