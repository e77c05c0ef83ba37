-- ===== src/Guards/Participants.antt =====
-- Whom the guard of participants lets in.
use huddle.Prelude.{ℕ, ◌*◌, ◌<◌, ◌≡◌, ◌≢◌, inl, inr, arith, String, Option, some, Option-cases}
use huddle.Fault.{ok}
use huddle.Guards.{
  Header, header_text, TokenClaims, CallParticipant, verify_participant_token, participant_guard,
}

module _ (verifier : String → Option TokenClaims) where
  -- A request passes as a participant only with a token in its header that the verifier accepts for
  -- this very room, whose `exp`, in seconds, is after the time, in milliseconds, and that is not a
  -- Control Agent's. Who the participant is, and the proof of their account, is what the token says.
  pub participant_guard_sound :
      (now : ℕ) (slug : String) (header : Header) (p : CallParticipant)
      → participant_guard verifier now slug header ≡ ok p
      → (token : String) × (c : TokenClaims) × (exp : ℕ) × (header_text header ≡ some token)
        × (verifier token ≡ some c)
        × (c.sub ≡ some p.identity)
        × (c.video_room ≡ some slug)
        × (c.role ≡ p.role)
        × (c.account_binding ≡ p.account_binding)
        × (p.role ≢ some "control-agent")
        × (c.exp ≡ some exp)
        × (p.token_expires_at ≡ exp * 1000)
        × (now < exp * 1000)
  unfolding participant_guard verify_participant_token
  participant_guard_sound now slug header p passed = elim (Option-cases (header_text header)) [
    | inl e ↦ absurd (ground (arith, e, passed))
    | inr (token, e) ↦ elim (Option-cases (verifier token)) [
      | inl e' ↦ absurd (ground (arith, e, e', passed))
      | inr (c, e') ↦ elim (Option-cases c.exp) [
        | inl never ↦ absurd (ground (arith, e, e', passed, never))
        | inr (exp, ends) ↦ (
          token,
          c,
          exp,
          e,
          e',
          ground (arith, e, e', passed),
          ground (arith, e, e', passed),
          ground (arith, e, e', passed),
          ground (arith, e, e', passed),
          λ agent. ground (arith, e, e', passed, agent),
          ends,
          ground (arith, e, e', passed, ends),
          ground (arith, e, e', passed, ends),
        )
      ]
    ]
  ]
