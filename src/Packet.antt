-- ===== src/Packet.antt =====
-- apps/web/src/lib/controlProtocol.ts: the packets of Remote Control. `JavaScript` is what the code
-- uses of the language: numbers, the lengths of texts, JSON and the encoding of texts as bytes. A
-- parsed object is its fields, each name once. A text is a sequence of Unicode characters: one with a
-- lone surrogate, which cannot be written as bytes, is not represented.
pub mod Bounds
pub mod RoundTrip
pub mod Faithful
use huddle.Prelude.{
  ℕ, ◌≡◌, String, Option, none, some, List, [], ◌∷◌, Bool, true, false, not, ◌&&◌, ◌||◌,
  if◌then◌else◌, leb, ltb, same, has, length,
}

mutual
  pub data Json (Number : Type 0) : Type 0 where
    null : Json Number
    bool : Bool → Json Number
    num : Number → Json Number
    str : String → Json Number
    arr : Items Number → Json Number
    obj : Fields Number → Json Number

  pub data Items (Number : Type 0) : Type 0 where
    no_items : Items Number
    item : Json Number → Items Number → Items Number

  pub data Fields (Number : Type 0) : Type 0 where
    no_fields : Fields Number
    field : String → Json Number → Fields Number → Fields Number

-- The names of fields in a packet.
abbrev pub field_names : List String
field_names =
    "v" ∷ "type" ∷ "requestId" ∷ "sessionId" ∷ "sequence" ∷ "revision" ∷ "event" ∷ "text" ∷ "kind"
    ∷ "x" ∷ "y" ∷ "button" ∷ "dx" ∷ "dy" ∷ "action" ∷ "code" ∷ "key" ∷ "modifiers" ∷ []

-- A value that JSON keeps: its numbers are exact, and the fields of an object have names of packets,
-- each once.
unfoldable mutual
  pub is_faithful : {Number : Type 0} → (Number → Bool) → Json Number → Bool
  is_faithful exact null = true
  is_faithful exact (bool b) = true
  is_faithful exact (num n) = exact n
  is_faithful exact (str s) = true
  is_faithful exact (arr xs) = are_faithful exact xs
  is_faithful exact (obj fs) = has_faithful exact [] fs

  pub are_faithful : {Number : Type 0} → (Number → Bool) → Items Number → Bool
  are_faithful exact no_items = true
  are_faithful exact (item x xs) = is_faithful exact x && are_faithful exact xs

  pub has_faithful : {Number : Type 0} → (Number → Bool) → List String → Fields Number → Bool
  has_faithful exact seen no_fields = true
  has_faithful exact seen (field k v fs) =
      has k field_names
      && not (has k seen)
      && is_faithful exact v
      && has_faithful exact (k ∷ seen) fs

-- JSON writes a number that is not finite as null, and negative zero as 0.
pub record JavaScript : Type 1 where
  pub Number : Type 0
  pub Bytes : Type 0
  pub is_finite : Number → Bool
  pub is_safe_integer : Number → Bool
  pub is_negative_zero : Number → Bool
  pub at_most : Number → Number → Bool
  pub abs : Number → Number
  pub number : ℕ → Number
  pub text_length : String → ℕ
  pub utf8_length : String → ℕ
  pub byte_length : Bytes → ℕ
  pub stringify : Json Number → Bytes
  pub parse : Bytes → Option (Json Number)
  pub parse-stringify :
      (j : Json Number)
      → is_faithful (λ n. is_finite n && not (is_negative_zero n)) j ≡ true
      → parse (stringify j) ≡ some j
  pub is_safe_integer-finite : (n : Number) → is_safe_integer n ≡ true → is_finite n ≡ true
  pub is_finite-number : (n : ℕ) → is_finite (number n) ≡ true
  pub is_negative_zero-number : (n : ℕ) → is_negative_zero (number n) ≡ false
  pub at_most_number : (n : ℕ) → at_most (number n) (number n) ≡ true

pub data MouseButton : Type 0 where
  left middle right : MouseButton

pub data KeyModifier : Type 0 where
  shift ctrl alt meta : KeyModifier

-- Down or up.
pub data Action : Type 0 where
  down up : Action

pub data InputEvent (Number : Type 0) : Type 0 where
  move : Number → Number → InputEvent Number
  press : Action → Number → Number → MouseButton → InputEvent Number
  scroll : Number → Number → Number → Number → InputEvent Number
  key : Action → String → Option String → List KeyModifier → InputEvent Number
  release_all : InputEvent Number

pub data Message (Number : Type 0) : Type 0 where
  request denied withdrawn stop_intent : String → Message Number
  input : String → Number → InputEvent Number → Message Number
  clipboard_copy : String → Number → Message Number
  clipboard_paste clipboard_update : String → Number → String → Message Number

-- A reader answers `none` where the source returns null.
unfoldable pub bind {ℓ} : {A B : Type ℓ} → Option A → (A → Option B) → Option B
bind none f = none
bind (some a) f = f a

unfoldable pub guard {ℓ} : {A : Type ℓ} → Bool → Option A → Option A
guard true o = o
guard false o = none

abbrev pub button_of : String → Option MouseButton
button_of s =
    if same s "left"
    then some MouseButton.left
    else (if same s "middle"
        then some MouseButton.middle
        else (if same s "right" then some MouseButton.right else none))

abbrev pub action_of : String → Option Action
action_of s =
    if same s "down" then some Action.down else (if same s "up" then some Action.up else none)

abbrev pub modifier_of : String → Option KeyModifier
modifier_of s =
    if same s "shift"
    then some KeyModifier.shift
    else (if same s "ctrl"
        then some KeyModifier.ctrl
        else (if same s "alt"
            then some KeyModifier.alt
            else (if same s "meta" then some KeyModifier.meta else none)))

abbrev pub same_modifier : KeyModifier → KeyModifier → Bool
same_modifier KeyModifier.shift KeyModifier.shift = true
same_modifier KeyModifier.ctrl KeyModifier.ctrl = true
same_modifier KeyModifier.alt KeyModifier.alt = true
same_modifier KeyModifier.meta KeyModifier.meta = true
same_modifier _ _ = false

abbrev pub has_modifier : KeyModifier → List KeyModifier → Bool
has_modifier m [] = false
has_modifier m (x ∷ xs) = same_modifier x m || has_modifier m xs

abbrev pub max_packet_bytes : ℕ
max_packet_bytes = 8192

abbrev pub max_clipboard_text_bytes : ℕ
max_clipboard_text_bytes = 6144

module _ (js : JavaScript) where
  open js use {Number}

  abbrev pub text_of : Json Number → Option String
  text_of (str s) = some s
  text_of _ = none

  abbrev pub number_of : Json Number → Option Number
  number_of (num n) = some n
  number_of _ = none

  abbrev pub fields_of : Json Number → Option (Fields Number)
  fields_of (obj fs) = some fs
  fields_of _ = none

  abbrev pub items_of : Json Number → Option (Items Number)
  items_of (arr xs) = some xs
  items_of _ = none

  abbrev pub lookup : String → Fields Number → Option (Json Number)
  lookup name no_fields = none
  lookup name (field k v fs) = let later = lookup name fs in if same k name then some v else later

  abbrev pub has_only_keys : List String → Fields Number → Bool
  has_only_keys keys no_fields = true
  has_only_keys keys (field k v fs) = has k keys && has_only_keys keys fs

  abbrev pub is_bounded : ℕ → String → Bool
  is_bounded max s = ltb 0 (js.text_length s) && leb (js.text_length s) max

  abbrev pub is_clipboard_text : String → Bool
  is_clipboard_text s = ltb 0 (js.utf8_length s) && leb (js.utf8_length s) max_clipboard_text_bytes

  abbrev pub is_sequence : Number → Bool
  is_sequence n = js.is_safe_integer n && js.at_most (js.number 0) n

  abbrev pub is_coordinate : Number → Bool
  is_coordinate n = js.is_finite n && (js.at_most (js.number 0) n && js.at_most n (js.number 1))

  abbrev pub is_scroll_delta : Number → Bool
  is_scroll_delta n = js.is_finite n && js.at_most (js.abs n) (js.number 2000)

  abbrev pub texts_of : Items Number → Option (List String)
  texts_of no_items = some []
  texts_of (item x xs) = bind (text_of x) (λ s. bind (texts_of xs) (λ ss. some (s ∷ ss)))

  -- The field, as a text or number that passes the test.
  abbrev pub text_field : String → (String → Bool) → Fields Number → Option String
  text_field name test fs =
      bind (lookup name fs) (λ v. bind (text_of v) (λ s. guard (test s) (some s)))

  abbrev pub number_field : String → (Number → Bool) → Fields Number → Option Number
  number_field name test fs =
      bind (lookup name fs) (λ v. bind (number_of v) (λ n. guard (test n) (some n)))

  abbrev pub sequence_field : String → Fields Number → Option Number
  sequence_field name = number_field name is_sequence

  abbrev pub id_field : String → Fields Number → Option String
  id_field name = text_field name (is_bounded 160)

  -- `key` may be absent.
  abbrev pub key_text : Option (Json Number) → Option (Option String)
  key_text none = some none
  key_text (some (str s)) = guard (leb (js.text_length s) 64) (some (some s))
  key_text (some _) = none

  abbrev pub read_modifiers : List KeyModifier → List String → Option (List KeyModifier)
  read_modifiers seen [] = some []
  read_modifiers seen (s ∷ ss) = bind (modifier_of s) (λ m.
      guard (not (has_modifier m seen)) (bind (read_modifiers (m ∷ seen) ss) (λ ms. some (m ∷ ms))))

  abbrev pub modifiers_field : Fields Number → Option (List KeyModifier)
  modifiers_field fs = bind (lookup "modifiers" fs) (λ v.
      bind (items_of v)
        (λ xs. bind (texts_of xs) (λ ss. guard (leb (length ss) 4) (read_modifiers [] ss))))

  abbrev pub decode_point :
      List String
      → (Number → Number → Option (InputEvent Number))
      → Fields Number
      → Option (InputEvent Number)
  decode_point keys next fs = guard (has_only_keys keys fs) (
      bind (number_field "x" is_coordinate fs)
        (λ x. bind (number_field "y" is_coordinate fs) (next x)))

  abbrev pub decode_key : Fields Number → Option (InputEvent Number)
  decode_key fs = guard (has_only_keys ("kind" ∷ "action" ∷ "key" ∷ "code" ∷ "modifiers" ∷ []) fs) (
      bind (lookup "action" fs) (λ v. bind (text_of v) (λ s. bind (action_of s) (λ action.
        bind (text_field "code" (is_bounded 64) fs) (λ code.
          bind (key_text (lookup "key" fs))
            (λ k. bind (modifiers_field fs) (λ ms. some (key action code k ms))))))))

  abbrev pub decode_press : Action → Fields Number → Option (InputEvent Number)
  decode_press action fs =
      decode_point ("kind" ∷ "x" ∷ "y" ∷ "button" ∷ [])
        (λ x y.
          bind (lookup "button" fs)
            (λ v. bind (text_of v) (λ s. bind (button_of s) (λ b. some (press action x y b)))))
        fs

  abbrev pub decode_kind : String → Fields Number → Option (InputEvent Number)
  decode_kind kind fs =
      if same kind "move"
      then decode_point ("kind" ∷ "x" ∷ "y" ∷ []) (λ x y. some (move x y)) fs
      else (if same kind "down"
          then decode_press Action.down fs
          else (if same kind "up"
              then decode_press Action.up fs
              else (if same kind "scroll"
                  then decode_point ("kind" ∷ "x" ∷ "y" ∷ "dx" ∷ "dy" ∷ [])
                      (λ x y. bind (number_field "dx" is_scroll_delta fs) (λ dx.
                        bind (number_field "dy" is_scroll_delta fs)
                          (λ dy. some (scroll x y dx dy))))
                      fs
                  else (if same kind "key"
                      then decode_key fs
                      else (if same kind "release-all"
                          then guard (has_only_keys ("kind" ∷ []) fs) (some release_all)
                          else none)))))

  abbrev pub decode_input_event : Json Number → Option (InputEvent Number)
  decode_input_event value =
      bind (fields_of value)
        (λ fs. bind (lookup "kind" fs) (λ v. bind (text_of v) (λ kind. decode_kind kind fs)))

  abbrev pub decode_id :
      String → (String → Message Number) → Fields Number → Option (Message Number)
  decode_id name next fs =
      guard (has_only_keys ("v" ∷ "type" ∷ name ∷ []) fs)
        (bind (id_field name fs) (λ id. some (next id)))

  abbrev pub decode_input : Fields Number → Option (Message Number)
  decode_input fs =
      guard (has_only_keys ("v" ∷ "type" ∷ "sessionId" ∷ "sequence" ∷ "event" ∷ []) fs) (
        bind (id_field "sessionId" fs) (λ id. bind (sequence_field "sequence" fs) (λ n.
          bind (lookup "event" fs) (λ v. bind (decode_input_event v) (λ e. some (input id n e))))))

  abbrev pub decode_copy : Fields Number → Option (Message Number)
  decode_copy fs = guard (has_only_keys ("v" ∷ "type" ∷ "sessionId" ∷ "sequence" ∷ []) fs) (
      bind (id_field "sessionId" fs)
        (λ id. bind (sequence_field "sequence" fs) (λ n. some (clipboard_copy id n))))

  abbrev pub decode_text :
      String → (String → Number → String → Message Number) → Fields Number → Option (Message Number)
  decode_text counter next fs =
      guard (has_only_keys ("v" ∷ "type" ∷ "sessionId" ∷ counter ∷ "text" ∷ []) fs) (
        bind (id_field "sessionId" fs) (λ id.
          bind (sequence_field counter fs)
            (λ n. bind (text_field "text" is_clipboard_text fs) (λ s. some (next id n s)))))

  abbrev pub decode_type : String → Fields Number → Option (Message Number)
  decode_type type fs =
      if same type "remote-control:request"
      then decode_id "requestId" request fs
      else (if same type "remote-control:denied"
          then decode_id "requestId" denied fs
          else (if same type "remote-control:withdrawn"
              then decode_id "requestId" withdrawn fs
              else (if same type "remote-control:stop-intent"
                  then decode_id "sessionId" stop_intent fs
                  else (if same type "remote-control:input"
                      then decode_input fs
                      else (if same type "remote-control:clipboard-copy"
                          then decode_copy fs
                          else (if same type "remote-control:clipboard-paste"
                              then decode_text "sequence" clipboard_paste fs
                              else (if same type "remote-control:clipboard-update"
                                  then decode_text "revision" clipboard_update fs
                                  else none)))))))

  -- `value.v === 2`
  abbrev pub is_version : Number → Bool
  is_version n = js.at_most n (js.number 2) && js.at_most (js.number 2) n

  abbrev pub decode_value : Json Number → Option (Message Number)
  decode_value value = bind (fields_of value) (λ fs.
      bind (number_field "v" is_version fs)
        (λ v. bind (lookup "type" fs) (λ t. bind (text_of t) (λ type. decode_type type fs))))

  unfoldable pub decode_remote_control_message : js.Bytes → Option (Message Number)
  decode_remote_control_message packet =
      guard (ltb 0 (js.byte_length packet) && leb (js.byte_length packet) max_packet_bytes)
        (bind (js.parse packet) decode_value)

  abbrev pub is_lossy_remote_control_message : Message Number → Bool
  is_lossy_remote_control_message (input id n (move x y)) = true
  is_lossy_remote_control_message _ = false

  -- `JSON.stringify` of a message goes over its fields; an absent key is no field.
  abbrev pub button_text : MouseButton → String
  button_text MouseButton.left = "left"
  button_text MouseButton.middle = "middle"
  button_text MouseButton.right = "right"

  abbrev pub action_text : Action → String
  action_text Action.down = "down"
  action_text Action.up = "up"

  abbrev pub modifier_text : KeyModifier → String
  modifier_text KeyModifier.shift = "shift"
  modifier_text KeyModifier.ctrl = "ctrl"
  modifier_text KeyModifier.alt = "alt"
  modifier_text KeyModifier.meta = "meta"

  abbrev pub modifier_items : List KeyModifier → Items Number
  modifier_items [] = no_items
  modifier_items (m ∷ ms) = item (str (modifier_text m)) (modifier_items ms)

  abbrev pub with_key : Option String → Fields Number → Fields Number
  with_key none fs = fs
  with_key (some s) fs = field "key" (str s) fs

  abbrev pub point : String → Number → Number → Fields Number → Json Number
  point kind x y fs = obj (field "kind" (str kind) (field "x" (num x) (field "y" (num y) fs)))

  abbrev pub event_json : InputEvent Number → Json Number
  event_json (move x y) = point "move" x y no_fields
  event_json (press a x y b) =
      point (action_text a) x y (field "button" (str (button_text b)) no_fields)
  event_json (scroll x y dx dy) =
      point "scroll" x y (field "dx" (num dx) (field "dy" (num dy) no_fields))
  event_json (key a code k ms) = obj (
      field "kind" (str "key") (
        field "action" (str (action_text a)) (
          field "code" (str code)
            (with_key k (field "modifiers" (arr (modifier_items ms)) no_fields)))))
  event_json release_all = obj (field "kind" (str "release-all") no_fields)

  abbrev pub envelope : String → Fields Number → Json Number
  envelope type fs = obj (field "v" (num (js.number 2)) (field "type" (str type) fs))

  abbrev pub id_json : String → String → String → Json Number
  id_json type name id = envelope type (field name (str id) no_fields)

  abbrev pub message_json : Message Number → Json Number
  message_json (request id) = id_json "remote-control:request" "requestId" id
  message_json (denied id) = id_json "remote-control:denied" "requestId" id
  message_json (withdrawn id) = id_json "remote-control:withdrawn" "requestId" id
  message_json (stop_intent id) = id_json "remote-control:stop-intent" "sessionId" id
  message_json (input id n e) = envelope "remote-control:input" (
      field "sessionId" (str id)
        (field "sequence" (num n) (field "event" (event_json e) no_fields)))
  message_json (clipboard_copy id n) =
      envelope "remote-control:clipboard-copy"
        (field "sessionId" (str id) (field "sequence" (num n) no_fields))
  message_json (clipboard_paste id n s) =
      envelope "remote-control:clipboard-paste"
        (field "sessionId" (str id) (field "sequence" (num n) (field "text" (str s) no_fields)))
  message_json (clipboard_update id n s) =
      envelope "remote-control:clipboard-update"
        (field "sessionId" (str id) (field "revision" (num n) (field "text" (str s) no_fields)))

  -- `none` is the RangeError.
  unfoldable pub encode_remote_control_message : Message Number → Option js.Bytes
  encode_remote_control_message message =
      let encoded = js.stringify (message_json message) in
      guard (ltb 0 (js.byte_length encoded) && leb (js.byte_length encoded) max_packet_bytes)
        (some encoded)
