-- ===== src/Tests/Guards.antt =====
-- A participant's request.
use huddle.Prelude.{ℕ, ◌*◌, ◌<◌, ◌≡◌, ◌≢◌, refl, String, String-discrete, Option, none, some}
use huddle.Guards.{
  Header, header_text, TokenClaims, CallParticipant, participant_guard, verify_participant_token,
}
use huddle.Guards.Participants.{participant_guard_sound}

abbrev claims : TokenClaims
claims = record {
  sub = some "ada";
  name = some "Ada";
  video_room = some "abc-defg-hij";
  role = none;
  account_binding = some "u-ada";
  exp = some 9;
}

abbrev verifier : String → Option TokenClaims
verifier token = some claims

abbrev ada : CallParticipant
ada = record {
  identity = "ada";
  name = "Ada";
  role = none;
  account_binding = some "u-ada";
  token_expires_at = 9_000;
}

participant_guard_sound_example :
    (token : String) × (c : TokenClaims) × (exp : ℕ) × (header_text (Header.one "token")
      ≡ some token)
    × (verifier token ≡ some c)
    × (c.sub ≡ some "ada")
    × (c.video_room ≡ some "abc-defg-hij")
    × (c.role ≡ none)
    × (c.account_binding ≡ some "u-ada")
    × (ada.role ≢ some "control-agent")
    × (c.exp ≡ some exp)
    × (9_000 ≡ exp * 1000)
    × (5_000 < exp * 1000)
unfolding participant_guard verify_participant_token header_text String-discrete
participant_guard_sound_example =
    participant_guard_sound verifier 5_000 "abc-defg-hij" (Header.one "token") ada refl
