-- ===== src/Packet/Bounds.antt =====
-- Nothing outside the bounds of the protocol is let in.
use huddle.Prelude.{
  ◌≡◌, ◌≤◌, refl, subst, ◌∙◌, String, Option, none, some, List, [], ◌∷◌, Bool, true, false, ◌&&◌,
  if◌then◌else◌, leb, same, length, arith,
}
use huddle.Packet.{
  Json, Fields, guard, bind, JavaScript, Message, request, denied, withdrawn, stop_intent,
  clipboard_paste, clipboard_update, InputEvent, move, KeyModifier, Action, is_bounded,
  is_clipboard_text, is_sequence, is_coordinate, is_scroll_delta, decode_input_event, decode_type,
  decode_kind, decode_id, decode_input, decode_copy, decode_text, decode_point, decode_press,
  decode_key, decode_remote_control_message, text_field, number_field, modifiers_field,
  read_modifiers, key_text, lookup,
}
use huddle.Packet.Faithful.{unique, fits_key, is_valid_event, is_valid}

-- Whatever the reader answers has the property.
record Sound {ℓ} {A : Type ℓ} (P : A → Type 0) (o : Option A) : Type ℓ where
  run : (a : A) → o ≡ some a → P a

some_value {ℓ} : {A : Type ℓ} (a b : A) → some a ≡ some b → a ≡ b
some_value a b e = cc e

some-Sound {ℓ} : {A : Type ℓ} {P : A → Type 0} {a : A} → P a → Sound P (some a)
some-Sound {P = P} {a = a} p = record { run = λ b e. subst P (some_value a b e) p }

bind-Sound {ℓ} :
    {A B : Type ℓ} {P : B → Type 0} {o : Option A} {f : A → Option B}
    → ((a : A) → o ≡ some a → Sound P (f a))
    → Sound P (bind o f)
unfolding bind
bind-Sound {o = none} h = record { run = λ b e. absurd (cc e) }
bind-Sound {o = some a} h = h a refl

guard-Sound {ℓ} :
    {A : Type ℓ} {P : A → Type 0} {g : Bool} {o : Option A}
    → (g ≡ true → Sound P o)
    → Sound P (guard g o)
unfolding guard
guard-Sound {g = true} h = h refl
guard-Sound {g = false} h = record { run = λ b e. absurd (cc e) }

if-Sound {ℓ} :
    {A : Type ℓ} {P : A → Type 0} (g : Bool) {o p : Option A}
    → Sound P o
    → Sound P p
    → Sound P (if g then o else p)
if-Sound true h k = h
if-Sound false h k = k

none-Sound {ℓ} : {A : Type ℓ} {P : A → Type 0} → Sound P none
none-Sound = record { run = λ b e. absurd (cc e) }

module _ (js : JavaScript) where
  open js use {Number}

  text_field_lem :
      (name : String) (test : String → Bool) (fs : Fields Number) (s : String)
      → text_field js name test fs ≡ some s
      → test s ≡ true
  unfolding bind guard
  text_field_lem name test fs s e = ground arith

  number_field_lem :
      (name : String) (test : Number → Bool) (fs : Fields Number) (n : Number)
      → number_field js name test fs ≡ some n
      → test n ≡ true
  unfolding bind guard
  number_field_lem name test fs n e = ground arith

  read_modifiers_lem :
      (seen : List KeyModifier) (ss : List String) (ms : List KeyModifier)
      → read_modifiers js seen ss ≡ some ms
      → (unique js seen ms ≡ true) × (length ms ≡ length ss)
  unfolding bind guard
  read_modifiers_lem seen [] [] e = (refl, refl)
  read_modifiers_lem seen [] (m ∷ ms) e = ground arith
  read_modifiers_lem seen (s ∷ ss) [] e = ground arith
  read_modifiers_lem seen (s ∷ ss) (m ∷ ms) e = ground (arith, read_modifiers_lem (m ∷ seen) ss ms)

  abbrev Few : List KeyModifier → Type 0
  Few ms = leb (length ms) 4 && unique js [] ms ≡ true

  modifiers_field-Few : (fs : Fields Number) → Sound Few (modifiers_field js fs)
  modifiers_field-Few fs = bind-Sound (λ v found. bind-Sound (λ xs is_array.
      bind-Sound (λ ss are_texts.
        guard-Sound
          (λ few. record { run = λ ms e. ground (arith, few, read_modifiers_lem [] ss ms e) }))))

  key_text_lem :
      (o : Option (Json Number)) (k : Option String) → key_text js o ≡ some k → fits_key js k ≡ true
  unfolding bind guard
  key_text_lem o k e = ground arith

  abbrev IsValid : Message Number → Type 0
  IsValid m = is_valid js m ≡ true

  decode_copy-IsValid : (fs : Fields Number) → Sound IsValid (decode_copy js fs)
  decode_copy-IsValid fs = guard-Sound (λ keys. bind-Sound (λ id found. bind-Sound (λ n counted.
      some-Sound (
        ground (
          arith,
          text_field_lem "sessionId" (is_bounded js 160) fs id found,
          number_field_lem "sequence" (is_sequence js) fs n counted,
        )))))

  decode_id-IsValid :
      (name : String) (next : String → Message Number) (fs : Fields Number)
      → ((id : String) → is_valid js (next id) ≡ is_bounded js 160 id)
      → Sound IsValid (decode_id js name next fs)
  decode_id-IsValid name next fs means = guard-Sound (λ keys.
      bind-Sound
        (λ id found. some-Sound (means id ∙ text_field_lem name (is_bounded js 160) fs id found)))

  decode_text-IsValid :
      (counter : String) (next : String → Number → String → Message Number) (fs : Fields Number)
      → ((id : String) (n : Number) (s : String)
          → is_valid js (next id n s)
            ≡ (is_bounded js 160 id && (is_sequence js n && is_clipboard_text js s)))
      → Sound IsValid (decode_text js counter next fs)
  decode_text-IsValid counter next fs means = guard-Sound (λ keys. bind-Sound (λ id found.
      bind-Sound (λ n counted. bind-Sound (λ s given. some-Sound (
        means id n s
        ∙ ground (
          arith,
          text_field_lem "sessionId" (is_bounded js 160) fs id found,
          number_field_lem counter (is_sequence js) fs n counted,
          text_field_lem "text" (is_clipboard_text js) fs s given,
        ))))))

  abbrev IsValidEvent : InputEvent Number → Type 0
  IsValidEvent e = is_valid_event js e ≡ true

  decode_point-IsValidEvent :
      (keys : List String) (next : Number → Number → Option (InputEvent Number))
      (fs : Fields Number)
      → ((x y : Number)
          → is_coordinate js x ≡ true
          → is_coordinate js y ≡ true
          → Sound IsValidEvent (next x y))
      → Sound IsValidEvent (decode_point js keys next fs)
  decode_point-IsValidEvent keys next fs sound = guard-Sound (λ only. bind-Sound (λ x left.
      bind-Sound (λ y top.
        sound x y (number_field_lem "x" (is_coordinate js) fs x left)
          (number_field_lem "y" (is_coordinate js) fs y top))))

  decode_press-IsValidEvent :
      (a : Action) (fs : Fields Number) → Sound IsValidEvent (decode_press js a fs)
  decode_press-IsValidEvent a fs =
      decode_point-IsValidEvent ("kind" ∷ "x" ∷ "y" ∷ "button" ∷ []) _ fs (λ x y in_x in_y.
        bind-Sound (λ v found.
          bind-Sound
            (λ s is_text. bind-Sound (λ b named. some-Sound (ground (arith, in_x, in_y))))))

  decode_key-IsValidEvent : (fs : Fields Number) → Sound IsValidEvent (decode_key js fs)
  decode_key-IsValidEvent fs = guard-Sound (λ keys. bind-Sound (λ v found. bind-Sound (λ s is_text.
      bind-Sound (λ a acts. bind-Sound (λ code coded. bind-Sound (λ k keyed.
        bind-Sound (λ ms modified. some-Sound (
          ground (
            arith,
            text_field_lem "code" (is_bounded js 64) fs code coded,
            key_text_lem (lookup js "key" fs) k keyed,
            (modifiers_field-Few fs).run ms modified,
          )))))))))

  decode_kind-IsValidEvent :
      (kind : String) (fs : Fields Number) → Sound IsValidEvent (decode_kind js kind fs)
  decode_kind-IsValidEvent kind fs =
      if-Sound (same kind "move")
        (decode_point-IsValidEvent ("kind" ∷ "x" ∷ "y" ∷ []) (λ x y. some (move x y)) fs
          (λ x y in_x in_y. some-Sound (ground (arith, in_x, in_y))))
        (if-Sound (same kind "down") (decode_press-IsValidEvent Action.down fs) (
          if-Sound (same kind "up") (decode_press-IsValidEvent Action.up fs) (
            if-Sound (same kind "scroll")
              (decode_point-IsValidEvent ("kind" ∷ "x" ∷ "y" ∷ "dx" ∷ "dy" ∷ []) _ fs
                (λ x y in_x in_y. bind-Sound (λ dx across. bind-Sound (λ dy along. some-Sound (
                  ground (
                    arith,
                    in_x,
                    in_y,
                    number_field_lem "dx" (is_scroll_delta js) fs dx across,
                    number_field_lem "dy" (is_scroll_delta js) fs dy along,
                  ))))))
              (if-Sound (same kind "key") (decode_key-IsValidEvent fs) (
                if-Sound (same kind "release-all") (guard-Sound (λ keys. some-Sound refl))
                  none-Sound)))))

  decode_input_event-IsValidEvent :
      (value : Json Number) → Sound IsValidEvent (decode_input_event js value)
  decode_input_event-IsValidEvent value = bind-Sound (λ fs is_object.
      bind-Sound (λ v found. bind-Sound (λ kind is_text. decode_kind-IsValidEvent kind fs)))

  decode_input-IsValid : (fs : Fields Number) → Sound IsValid (decode_input js fs)
  decode_input-IsValid fs = guard-Sound (λ keys. bind-Sound (λ id found. bind-Sound (λ n counted.
      bind-Sound (λ v given. bind-Sound (λ e decoded. some-Sound (
        ground (
          arith,
          text_field_lem "sessionId" (is_bounded js 160) fs id found,
          number_field_lem "sequence" (is_sequence js) fs n counted,
          (decode_input_event-IsValidEvent v).run e decoded,
        )))))))

  decode_type-IsValid :
      (type : String) (fs : Fields Number) → Sound IsValid (decode_type js type fs)
  decode_type-IsValid type fs =
      if-Sound (same type "remote-control:request")
        (decode_id-IsValid "requestId" request fs (λ id. refl))
        (if-Sound (same type "remote-control:denied")
          (decode_id-IsValid "requestId" denied fs (λ id. refl))
          (if-Sound (same type "remote-control:withdrawn")
            (decode_id-IsValid "requestId" withdrawn fs (λ id. refl))
            (if-Sound (same type "remote-control:stop-intent")
              (decode_id-IsValid "sessionId" stop_intent fs (λ id. refl))
              (if-Sound (same type "remote-control:input") (decode_input-IsValid fs) (
                if-Sound (same type "remote-control:clipboard-copy") (decode_copy-IsValid fs) (
                  if-Sound (same type "remote-control:clipboard-paste")
                    (decode_text-IsValid "sequence" clipboard_paste fs (λ id n s. refl))
                    (if-Sound (same type "remote-control:clipboard-update")
                      (decode_text-IsValid "revision" clipboard_update fs (λ id n s. refl))
                      none-Sound)))))))

  packet-Sound : (packet : js.Bytes) → Sound IsValid (decode_remote_control_message js packet)
  unfolding decode_remote_control_message
  packet-Sound packet = guard-Sound (λ sized. bind-Sound (λ value parsed.
      bind-Sound (λ fs is_object. bind-Sound (λ v versioned.
        bind-Sound (λ t typed. bind-Sound (λ type is_text. decode_type-IsValid type fs))))))

  packet_size :
      (packet : js.Bytes) (m : Message Number)
      → decode_remote_control_message js packet ≡ some m
      → js.byte_length packet ≤ 8192
  unfolding decode_remote_control_message guard
  packet_size packet m e = ground arith

  -- Whatever bytes arrive, a message that is decoded from them is within every bound of the protocol:
  -- lengths of ids, texts, keys and codes, coordinates, scroll distances, and modifiers without
  -- repetition; and the packet is within its limit.
  pub decode_remote_control_message_sound :
      (packet : js.Bytes) (m : Message Number)
      → decode_remote_control_message js packet ≡ some m
      → (is_valid js m ≡ true) × (js.byte_length packet ≤ 8192)
  decode_remote_control_message_sound packet m e =
      ((packet-Sound packet).run m e, packet_size packet m e)
