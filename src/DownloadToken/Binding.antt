-- ===== src/DownloadToken/Binding.antt =====
-- What a download link opens, and how long.
use Prim.Native.String.{◌++◌ as ◌++ᵗ◌}
use huddle.Prelude.{ℕ, ◌≡◌, ◌≤◌, ◌+◌, ◌↔◌, ◌&&◌, not, ltb, same, String, some, true, arith}
use huddle.Fault.{ok}
use huddle.DownloadToken.{ttl_ms, Signing, sign, verify, can_activate}
use huddle.DownloadToken.Text.{index_of_dot-append, slice_to-append, slice_from-append}

module _ (signing : Signing) where
  open signing use {
    hmac, number_text, read_number, read_number-number_text, index_of_dot-number_text,
  }

  -- The text of a signed link is read as its two parts.
  pub verify-sign :
      (signed now : ℕ) (room room' id id' : String)
      → verify signing now room' id' (sign signing signed room id) ≡ (
          not (ltb (signed + ttl_ms) now)
          && same (hmac room id (signed + ttl_ms)) (hmac room' id' (signed + ttl_ms)))
  unfolding verify sign
  verify-sign signed now room room' id id' =
      let exp = signed + ttl_ms in
      ground (
        arith,
        index_of_dot-append (number_text exp) (hmac room id exp) (index_of_dot-number_text exp),
        slice_to-append (number_text exp) ("." ++ᵗ hmac room id exp),
        slice_from-append (number_text exp) (hmac room id exp),
        read_number-number_text exp,
      )

  opens :
      (signed now : ℕ) (room room' id id' : String)
      → can_activate signing now room' id' (some (sign signing signed room id)) ≡ ok true
      → (now ≤ signed + 300_000)
        × (hmac room id (signed + ttl_ms) ≡ hmac room' id' (signed + ttl_ms))
  unfolding can_activate
  opens signed now room room' id id' opened =
      ground (arith, opened, verify-sign signed now room room' id id')

  -- When the signatures of two recordings for one expiry do not collide, a signed link of one, written
  -- as a text and read again, opens the route of exactly its own room and recording, until five
  -- minutes after it was signed, as often as one likes.
  pub can_activate-sign :
      (signed now : ℕ) (room room' id id' : String)
      → (hmac room id (signed + ttl_ms) ≡ hmac room' id' (signed + ttl_ms)
          → (room ≡ room') × (id ≡ id'))
      → (can_activate signing now room' id' (some (sign signing signed room id)) ≡ ok true)
        ↔ ((room ≡ room') × (id ≡ id') × (now ≤ signed + 300_000))
  unfolding can_activate
  can_activate-sign signed now room room' id id' apart = (
    (λ opened.
        let (in_time, signed_so) = opens signed now room room' id id' opened in
        let (same_room, same_id) = apart signed_so in (same_room, same_id, in_time)),
    (λ (same_room, same_id, in_time).
        let one : hmac room id (signed + ttl_ms) ≡ hmac room' id' (signed + ttl_ms) =
          cc (same_room, same_id) in
        ground (arith, one, in_time, verify-sign signed now room room' id id')),
  )
