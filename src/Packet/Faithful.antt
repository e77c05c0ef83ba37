-- ===== src/Packet/Faithful.antt =====
-- The messages within the bounds of the protocol, and that their packets are values that JSON keeps.
use huddle.Prelude.{
  ◌≡◌, refl, String, String-discrete, Option, none, some, List, [], ◌∷◌, Bool, true, not, ◌&&◌, leb,
  length, arith,
}
use huddle.Packet.{
  JavaScript, Message, request, denied, withdrawn, stop_intent, input, clipboard_copy,
  clipboard_paste, clipboard_update, InputEvent, move, press, scroll, key, release_all, KeyModifier,
  has_modifier, is_bounded, is_clipboard_text, is_sequence, is_coordinate, is_scroll_delta,
  is_faithful, are_faithful, modifier_items, event_json, message_json,
}

module _ (js : JavaScript) where
  open js use {Number}

  -- No modifier stands twice, nor among the ones seen.
  abbrev pub unique : List KeyModifier → List KeyModifier → Bool
  unique seen [] = true
  unique seen (m ∷ ms) = not (has_modifier m seen) && unique (m ∷ seen) ms

  abbrev pub fits_key : Option String → Bool
  fits_key none = true
  fits_key (some s) = leb (js.text_length s) 64

  -- The bounds of the protocol.
  abbrev pub is_valid_event : InputEvent Number → Bool
  is_valid_event (move x y) = is_coordinate js x && is_coordinate js y
  is_valid_event (press a x y b) = is_coordinate js x && is_coordinate js y
  is_valid_event (scroll x y dx dy) =
      is_coordinate js x && (is_coordinate js y && (is_scroll_delta js dx && is_scroll_delta js dy))
  is_valid_event (key a code k ms) =
      is_bounded js 64 code && (fits_key k && (leb (length ms) 4 && unique [] ms))
  is_valid_event release_all = true

  abbrev pub is_valid : Message Number → Bool
  is_valid (request id) = is_bounded js 160 id
  is_valid (denied id) = is_bounded js 160 id
  is_valid (withdrawn id) = is_bounded js 160 id
  is_valid (stop_intent id) = is_bounded js 160 id
  is_valid (input id n e) = is_bounded js 160 id && (is_sequence js n && is_valid_event e)
  is_valid (clipboard_copy id n) = is_bounded js 160 id && is_sequence js n
  is_valid (clipboard_paste id n s) =
      is_bounded js 160 id && (is_sequence js n && is_clipboard_text js s)
  is_valid (clipboard_update id n s) =
      is_bounded js 160 id && (is_sequence js n && is_clipboard_text js s)

  abbrev pub is_exact : Number → Bool
  is_exact n = js.is_finite n && not (js.is_negative_zero n)

  -- No number of the event, or of the message, is negative zero.
  abbrev pub is_plain_event : InputEvent Number → Bool
  is_plain_event (move x y) = not (js.is_negative_zero x) && not (js.is_negative_zero y)
  is_plain_event (press a x y b) = not (js.is_negative_zero x) && not (js.is_negative_zero y)
  is_plain_event (scroll x y dx dy) =
      (not (js.is_negative_zero x) && not (js.is_negative_zero y))
      && (not (js.is_negative_zero dx) && not (js.is_negative_zero dy))
  is_plain_event (key a code k ms) = true
  is_plain_event release_all = true

  abbrev pub is_plain : Message Number → Bool
  is_plain (request id) = true
  is_plain (denied id) = true
  is_plain (withdrawn id) = true
  is_plain (stop_intent id) = true
  is_plain (input id n e) = not (js.is_negative_zero n) && is_plain_event e
  is_plain (clipboard_copy id n) = not (js.is_negative_zero n)
  is_plain (clipboard_paste id n s) = not (js.is_negative_zero n)
  is_plain (clipboard_update id n s) = not (js.is_negative_zero n)

  are_faithful-modifier_items :
      (ms : List KeyModifier) → are_faithful is_exact (modifier_items js ms) ≡ true
  unfolding is_faithful
  are_faithful-modifier_items [] = refl
  are_faithful-modifier_items (m ∷ ms) = are_faithful-modifier_items ms

  is_faithful-event_json :
      (e : InputEvent Number)
      → is_valid_event e ≡ true
      → is_plain_event e ≡ true
      → is_faithful is_exact (event_json js e) ≡ true
  unfolding is_faithful String-discrete
  is_faithful-event_json (move x y) valid plain = ground (arith, valid, plain)
  is_faithful-event_json (press a x y b) valid plain = ground (arith, valid, plain)
  is_faithful-event_json (scroll x y dx dy) valid plain = ground (arith, valid, plain)
  is_faithful-event_json (key a code none ms) valid plain =
      ground (arith, are_faithful-modifier_items ms)
  is_faithful-event_json (key a code (some s) ms) valid plain =
      ground (arith, are_faithful-modifier_items ms)
  is_faithful-event_json release_all valid plain = refl

  finite_two : is_exact (js.number 2) ≡ true
  finite_two = ground (arith, js.is_finite-number 2, js.is_negative_zero-number 2)

  -- A message of the protocol is kept, unless it has a negative zero.
  pub is_faithful-message_json :
      (m : Message Number)
      → is_valid m ≡ true
      → is_plain m ≡ true
      → is_faithful is_exact (message_json js m) ≡ true
  unfolding is_faithful String-discrete
  is_faithful-message_json (request id) valid plain = ground (arith, finite_two)
  is_faithful-message_json (denied id) valid plain = ground (arith, finite_two)
  is_faithful-message_json (withdrawn id) valid plain = ground (arith, finite_two)
  is_faithful-message_json (stop_intent id) valid plain = ground (arith, finite_two)
  is_faithful-message_json (input id n e) valid plain =
      ground (arith, finite_two, js.is_safe_integer-finite n, is_faithful-event_json e)
  is_faithful-message_json (clipboard_copy id n) valid plain =
      ground (arith, finite_two, js.is_safe_integer-finite n)
  is_faithful-message_json (clipboard_paste id n s) valid plain =
      ground (arith, finite_two, js.is_safe_integer-finite n)
  is_faithful-message_json (clipboard_update id n s) valid plain =
      ground (arith, finite_two, js.is_safe_integer-finite n)
