-- ===== src/DownloadToken.antt =====
-- apps/api/src/rooms/download-token.service.ts and its guard: a signed link to one recording, the text
-- `<expiry>.<signature>`. Positions in a text count its characters. `hmac` is node:crypto's, of
-- `room:recording:expiry`, which the service makes of whole instants only.
pub mod Binding
pub mod Text
use Prim.Native.Char.{Char, code}
use Prim.Native.String.{[] as empty_text, ◌∷◌ as ◌∷ᵗ◌, ◌++◌ as ◌++ᵗ◌}
use huddle.Prelude.{
  ℕ, zero, suc, ◌+◌, ◌*◌, ◌≡◌, String, Option, none, some, Bool, true, false, ◌&&◌, not, same, ltb,
  ◌==◌, if◌then◌else◌,
}
use huddle.Fault.{Exception, FaultCode, Result, ok, err}

abbrev pub ttl_ms : ℕ
ttl_ms = 5 * 60 * 1000

abbrev pub is_dot : Char → Bool
is_dot c = code c == 46

abbrev pub one_later : Option ℕ → Option ℕ
one_later none = none
one_later (some n) = some (suc n)

-- `text.indexOf('.')`, with `none` for -1
abbrev pub index_of_dot : String → Option ℕ
index_of_dot empty_text = none
index_of_dot (c ∷ᵗ s) = let later = index_of_dot s in if is_dot c then some 0 else one_later later

-- `text.slice(0, n)`
abbrev pub slice_to : ℕ → String → String
slice_to zero s = ""
slice_to (suc n) empty_text = ""
slice_to (suc n) (c ∷ᵗ s) = c ∷ᵗ slice_to n s

-- `text.slice(n)`
abbrev pub slice_from : ℕ → String → String
slice_from zero s = s
slice_from (suc n) empty_text = ""
slice_from (suc n) (c ∷ᵗ s) = slice_from n s

-- What the service uses of node:crypto and of JavaScript's numbers. `number_text` writes an instant in a
-- template. `read_number` is `Number`, with `none` for what is not finite, not whole or below zero: the
-- service refuses an expiry below zero as past, and has signed no part of a millisecond.
pub record Signing : Type 0 where
  pub hmac : String → String → ℕ → String
  pub number_text : ℕ → String
  pub read_number : String → Option ℕ
  pub read_number-number_text : (n : ℕ) → read_number (number_text n) ≡ some n
  pub index_of_dot-number_text : (n : ℕ) → index_of_dot (number_text n) ≡ none

module _ (signing : Signing) where
  unfoldable pub sign : ℕ → String → String → String
  sign now room recording_id =
      let exp = now + ttl_ms in
      signing.number_text exp ++ᵗ ("." ++ᵗ signing.hmac room recording_id exp)

  signed_at : ℕ → String → String → String → Option ℕ → Bool
  signed_at now room recording_id provided none = false
  signed_at now room recording_id provided (some exp) =
      not (ltb exp now) && same provided (signing.hmac room recording_id exp)

  -- `dot` is where the dot is, if there is one.
  verify_at : ℕ → String → String → String → Option ℕ → Bool
  unfolding signed_at
  verify_at now room recording_id token none = false
  verify_at now room recording_id token (some dot) =
      signed_at now room recording_id (slice_from (dot + 1) token)
        (signing.read_number (slice_to dot token))

  unfoldable pub verify : ℕ → String → String → String → Bool
  unfolding verify_at
  verify now room recording_id token = verify_at now room recording_id token (index_of_dot token)

  -- `token` is the query parameter, if it is a text.
  unfoldable pub can_activate : ℕ → String → String → Option String → Result Bool
  can_activate now room id none = err (Exception.unauthorized FaultCode.download_token_invalid)
  can_activate now room id (some token) =
      if verify now room id token
      then ok true
      else err (Exception.unauthorized FaultCode.download_token_invalid)
