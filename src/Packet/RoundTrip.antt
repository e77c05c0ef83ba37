-- ===== src/Packet/RoundTrip.antt =====
-- What a packet carries arrives.
use huddle.Prelude.{
  ◌≡◌, refl, String, String-discrete, Option, none, some, List, [], ◌∷◌, true, ◌&&◌, leb, ltb,
  length, arith,
}
use huddle.Packet.{
  is_faithful, Json, guard, bind, max_packet_bytes, JavaScript, Message, request, denied, withdrawn,
  stop_intent, input, clipboard_copy, clipboard_paste, clipboard_update, InputEvent, move, press,
  scroll, key, release_all, KeyModifier, Action, MouseButton, decode_value, message_json,
  event_json, decode_input_event, decode_remote_control_message, encode_remote_control_message,
  is_version, texts_of, modifier_items, read_modifiers, modifier_text, modifier_of,
}
use huddle.Packet.Faithful.{
  unique, is_valid_event, is_valid, is_exact, is_plain, is_faithful-message_json,
}

module _ (js : JavaScript) where
  open js use {Number}

  decode_press_lem :
      (a : Action) (x y : Number) (b : MouseButton)
      → is_valid_event js (press a x y b) ≡ true
      → decode_input_event js (event_json js (press a x y b)) ≡ some (press a x y b)
  unfolding String-discrete bind guard
  decode_press_lem Action.down x y MouseButton.left h = ground (arith, h)
  decode_press_lem Action.down x y MouseButton.middle h = ground (arith, h)
  decode_press_lem Action.down x y MouseButton.right h = ground (arith, h)
  decode_press_lem Action.up x y MouseButton.left h = ground (arith, h)
  decode_press_lem Action.up x y MouseButton.middle h = ground (arith, h)
  decode_press_lem Action.up x y MouseButton.right h = ground (arith, h)

  -- A modifier, as its text.
  abbrev modifier_texts : List KeyModifier → List String
  modifier_texts [] = []
  modifier_texts (m ∷ ms) = modifier_text js m ∷ modifier_texts ms

  texts_of-modifier_items :
      (ms : List KeyModifier) → texts_of js (modifier_items js ms) ≡ some (modifier_texts ms)
  unfolding bind
  texts_of-modifier_items [] = refl
  texts_of-modifier_items (m ∷ ms) = ground (arith, texts_of-modifier_items ms)

  length-modifier_texts : (ms : List KeyModifier) → length (modifier_texts ms) ≡ length ms
  length-modifier_texts [] = refl
  length-modifier_texts (m ∷ ms) = omega (arith, length-modifier_texts ms)

  modifier_of-modifier_text : (m : KeyModifier) → modifier_of (modifier_text js m) ≡ some m
  unfolding String-discrete bind guard
  modifier_of-modifier_text KeyModifier.shift = refl
  modifier_of-modifier_text KeyModifier.ctrl = refl
  modifier_of-modifier_text KeyModifier.alt = refl
  modifier_of-modifier_text KeyModifier.meta = refl

  read_modifiers_lem :
      (seen ms : List KeyModifier)
      → unique js seen ms ≡ true
      → read_modifiers js seen (modifier_texts ms) ≡ some ms
  unfolding bind guard
  read_modifiers_lem seen [] h = refl
  read_modifiers_lem seen (m ∷ ms) h =
      ground (arith, modifier_of-modifier_text m, read_modifiers_lem (m ∷ seen) ms)

  decode_key_lem :
      (a : Action) (code : String) (k : Option String) (ms : List KeyModifier)
      → is_valid_event js (key a code k ms) ≡ true
      → decode_input_event js (event_json js (key a code k ms)) ≡ some (key a code k ms)
  unfolding String-discrete bind guard
  decode_key_lem Action.down code none ms h =
      ground
        (arith, h, texts_of-modifier_items ms, length-modifier_texts ms, read_modifiers_lem [] ms)
  decode_key_lem Action.down code (some s) ms h =
      ground
        (arith, h, texts_of-modifier_items ms, length-modifier_texts ms, read_modifiers_lem [] ms)
  decode_key_lem Action.up code none ms h =
      ground
        (arith, h, texts_of-modifier_items ms, length-modifier_texts ms, read_modifiers_lem [] ms)
  decode_key_lem Action.up code (some s) ms h =
      ground
        (arith, h, texts_of-modifier_items ms, length-modifier_texts ms, read_modifiers_lem [] ms)

  decode-event_json :
      (e : InputEvent Number)
      → is_valid_event js e ≡ true
      → decode_input_event js (event_json js e) ≡ some e
  unfolding String-discrete bind guard
  decode-event_json (move x y) h = ground (arith, h)
  decode-event_json (press a x y b) h = decode_press_lem a x y b h
  decode-event_json (scroll x y dx dy) h = ground (arith, h)
  decode-event_json (key a code k ms) h = decode_key_lem a code k ms h
  decode-event_json release_all h = refl

  decode-message_json :
      (m : Message Number)
      → is_version js (js.number 2) ≡ true
      → is_valid js m ≡ true
      → decode_value js (message_json js m) ≡ some m
  unfolding String-discrete bind guard
  decode-message_json (request id) v h = ground (arith, v, h)
  decode-message_json (denied id) v h = ground (arith, v, h)
  decode-message_json (withdrawn id) v h = ground (arith, v, h)
  decode-message_json (stop_intent id) v h = ground (arith, v, h)
  decode-message_json (input id n e) v h = ground (arith, h, decode-event_json e)
  decode-message_json (clipboard_copy id n) v h = ground (arith, v, h)
  decode-message_json (clipboard_paste id n s) v h = ground (arith, v, h)
  decode-message_json (clipboard_update id n s) v h = ground (arith, v, h)

  -- A packet that is not over the limit is parsed to the value that it was made of.
  parse_lem :
      (f : Json Number → Option (Message Number)) (j : Json Number) (m : Message Number)
      (packet : js.Bytes)
      → f j ≡ some m
      → guard
          (ltb 0 (js.byte_length (js.stringify j))
            && leb (js.byte_length (js.stringify j)) max_packet_bytes)
          (some (js.stringify j))
        ≡ some packet
      → is_faithful (is_exact js) j ≡ true
      → guard
          (ltb 0 (js.byte_length packet) && leb (js.byte_length packet) max_packet_bytes)
          (bind (js.parse packet) f)
        ≡ some m
  unfolding bind guard
  parse_lem f j m packet decoded encoded kept = ground (arith, js.parse-stringify j kept)

  -- A message within the bounds of the protocol that is encoded, and so fits in a packet, is decoded
  -- to itself, if none of its numbers is negative zero, which JSON writes as 0.
  pub decode-encode_remote_control_message :
      (m : Message Number) (packet : js.Bytes)
      → is_valid js m ≡ true
      → is_plain js m ≡ true
      → encode_remote_control_message js m ≡ some packet
      → decode_remote_control_message js packet ≡ some m
  unfolding guard encode_remote_control_message decode_remote_control_message
  decode-encode_remote_control_message m packet valid plain encoded =
      let version : is_version js (js.number 2) ≡ true = ground (arith, js.at_most_number 2) in
      parse_lem (decode_value js) (message_json js m) m packet (decode-message_json m version valid)
        encoded (is_faithful-message_json js m valid plain)
