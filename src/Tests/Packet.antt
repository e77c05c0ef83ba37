-- ===== src/Tests/Packet.antt =====
-- Packets of Remote Control, in a small JavaScript: its numbers are the naturals, negative zero and NaN,
-- and its bytes are the value as JSON writes it, which loses the last two.
use huddle.Prelude.{
  ℕ, ◌≡◌, refl, ap, String, String-discrete, List, some, none, [], ◌∷◌, Bool, true, false, not,
  ◌&&◌, leb, arith,
}
use huddle.Packet.{
  JavaScript, Json, Items, Fields, Message, input, key, Action, KeyModifier, message_json,
  decode_remote_control_message, encode_remote_control_message, decode_input_event, bind, guard,
  obj, field, str, num, null, bool, arr, no_items, item, no_fields, is_faithful, are_faithful,
  has_faithful,
}
use huddle.Packet.Bounds.{decode_remote_control_message_sound}
use huddle.Packet.Faithful.{is_valid}
use huddle.Packet.RoundTrip.{decode-encode_remote_control_message}

data Small : Type 0 where
  nan : Small
  negative_zero : Small
  nat : ℕ → Small

abbrev is_number : Small → Bool
is_number nan = false
is_number _ = true

abbrev is_negative : Small → Bool
is_negative negative_zero = true
is_negative _ = false

abbrev small_at_most : Small → Small → Bool
small_at_most nan _ = false
small_at_most _ nan = false
small_at_most negative_zero _ = true
small_at_most (nat m) negative_zero = leb m 0
small_at_most (nat m) (nat n) = leb m n

abbrev absolute : Small → Small
absolute negative_zero = nat 0
absolute n = n

abbrev exact : Small → Bool
exact n = is_number n && not (is_negative n)

abbrev written_number : Small → Json Small
written_number nan = null
written_number negative_zero = num (nat 0)
written_number (nat n) = num (nat n)

unfoldable mutual
  written : Json Small → Json Small
  written null = null
  written (bool b) = bool b
  written (num n) = written_number n
  written (str s) = str s
  written (arr xs) = arr (written_items xs)
  written (obj fs) = obj (written_fields fs)

  written_items : Items Small → Items Small
  written_items no_items = no_items
  written_items (item x xs) = item (written x) (written_items xs)

  written_fields : Fields Small → Fields Small
  written_fields no_fields = no_fields
  written_fields (field k v fs) = field k (written v) (written_fields fs)

written_exact : (n : Small) → exact n ≡ true → written_number n ≡ num n
written_exact nan kept = cc kept
written_exact negative_zero kept = cc kept
written_exact (nat n) kept = refl

mutual
  unfolding written is_faithful

  written_lem : (j : Json Small) → is_faithful exact j ≡ true → written j ≡ j
  written_lem null kept = refl
  written_lem (bool b) kept = refl
  written_lem (num n) kept = written_exact n kept
  written_lem (str s) kept = refl
  written_lem (arr xs) kept = ap arr (written_items_lem xs kept)
  written_lem (obj fs) kept = ap obj (written_fields_lem [] fs kept)

  written_items_lem : (xs : Items Small) → are_faithful exact xs ≡ true → written_items xs ≡ xs
  written_items_lem no_items kept = refl
  written_items_lem (item x xs) kept = ground (arith, kept, written_lem x, written_items_lem xs)

  written_fields_lem :
      (seen : List String) (fs : Fields Small)
      → has_faithful exact seen fs ≡ true
      → written_fields fs ≡ fs
  written_fields_lem seen no_fields kept = refl
  written_fields_lem seen (field k v fs) kept =
      ground (arith, kept, written_lem v, written_fields_lem (k ∷ seen) fs)

leb_self : (n : ℕ) → leb n n ≡ true
leb_self n = ground arith

is_number_lem : (n : Small) → is_number n ≡ true → is_number n ≡ true
is_number_lem n h = h

abbrev js : JavaScript
js = record {
  Number = Small;
  Bytes = Json Small;
  is_finite = is_number;
  is_safe_integer = is_number;
  is_negative_zero = is_negative;
  at_most = small_at_most;
  abs = absolute;
  number = nat;
  text_length = λ s. 5;
  utf8_length = λ s. 5;
  byte_length = λ packet. 200;
  stringify = written;
  parse = λ packet. some packet;
  parse-stringify = λ j kept. ap some (written_lem j kept);
  is_safe_integer-finite = is_number_lem;
  is_finite-number = λ n. refl;
  is_negative_zero-number = λ n. refl;
  at_most_number = leb_self;
}

abbrev typed : Message Small
typed =
    input "q1" (nat 7)
      (key Action.down "KeyV" (some "v") (KeyModifier.ctrl ∷ KeyModifier.shift ∷ []))

-- A coordinate over 1, and a field that is not known, are refused.
refused :
    (decode_input_event js (
        obj
          (field "kind" (str "move") (field "x" (num (nat 2)) (field "y" (num (nat 0)) no_fields))))
      ≡ none)
    × (decode_input_event js
          (obj (field "kind" (str "release-all") (field "x" (num (nat 1)) no_fields)))
        ≡ none)
unfolding String-discrete bind guard
refused = (refl, refl)

decode-encode_remote_control_message_example :
    decode_remote_control_message js (message_json js typed) ≡ some typed
unfolding guard encode_remote_control_message written
decode-encode_remote_control_message_example =
    decode-encode_remote_control_message js typed (message_json js typed) refl refl refl

decode_remote_control_message_sound_example : is_valid js typed ≡ true
unfolding String-discrete bind guard decode_remote_control_message
decode_remote_control_message_sound_example =
    (decode_remote_control_message_sound js (message_json js typed) typed refl).0
