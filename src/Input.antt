-- ===== src/Input.antt =====
-- crates/aetherlink-input/src/lib.rs: input events from the wire become commands.
use aether_link.Base.{
  ℕ, ◌≡◌, refl, Bool, true, false, ◌&&◌, String, Option, none, some, Result, ok, err, if◌then◌else◌,
  ◌↔◌, arith, ap, ok_injective,
}
use aether_link.Base.Int.{ℤ}

-- A floating point number is a value of the type Float, which the code only passes on.
module _ (Float : Type 0) where
  -- `input_event::Payload` of the generated aetherlink.v1 code, with the fields of its messages.
  pub data Payload : Type 0 where
    mouse_payload : (x y : ℤ) → (buttons_mask : ℕ) → Payload
    wheel_payload : (delta_x delta_y : ℤ) → Payload
    key_payload : (key_code : ℕ) → (down up repeat : Bool) → (modifiers_mask : ℕ) → Payload
    touch_payload : (pointer_id : ℕ) → (x y : Float) → (down moved up : Bool) → Payload

  pub record InputEvent : Type 0 where
    pub session_id : String
    pub source : ℕ
    pub event_unix_ms : ℕ
    pub payload : Option Payload

  pub data InputCommand : Type 0 where
    mouse : (x y : ℤ) → (buttons_mask : ℕ) → InputCommand
    wheel : (delta_x delta_y : ℤ) → InputCommand
    key : (key_code : ℕ) → (down up repeat : Bool) → (modifiers_mask : ℕ) → InputCommand
    touch : (pointer_id : ℕ) → (x y : Float) → (down moved up : Bool) → InputCommand

pub data InputError : Type 0 where
  missing_payload : InputError
  invalid_key_transition : InputError

module _ {Float : Type 0} where
  from_payload : Option (Payload Float) → Result InputError (InputCommand Float)
  from_payload none = err missing_payload
  from_payload (some (mouse_payload x y buttons)) = ok (mouse x y buttons)
  from_payload (some (wheel_payload dx dy)) = ok (wheel dx dy)
  from_payload (some (key_payload code down up repeat modifiers)) =
      if down && up then err invalid_key_transition else ok (key code down up repeat modifiers)
  from_payload (some (touch_payload pointer x y down moved up)) =
      ok (touch pointer x y down moved up)

  unfoldable pub normalize_input_event : InputEvent Float → Result InputError (InputCommand Float)
  unfolding from_payload
  normalize_input_event event = from_payload event.payload

  -- The payload that a command comes from.
  abbrev pub payload_of : InputCommand Float → Payload Float
  payload_of (mouse x y buttons) = mouse_payload x y buttons
  payload_of (wheel dx dy) = wheel_payload dx dy
  payload_of (key code down up repeat modifiers) = key_payload code down up repeat modifiers
  payload_of (touch pointer x y down moved up) = touch_payload pointer x y down moved up

  -- A key that is pressed and released at once.
  abbrev pub IsBothKey : Option (Payload Float) → Type 0
  IsBothKey (some (key_payload code down up repeat modifiers)) = (down ≡ true) × (up ≡ true)
  IsBothKey _ = ⊥

  both_key :
      (p : Option (Payload Float)) → (from_payload p ≡ err invalid_key_transition) ↔ IsBothKey p
  unfolding from_payload
  both_key none = (λ h. cc, λ h. absurd h)
  both_key (some (mouse_payload x y buttons)) = (λ h. cc, λ h. absurd h)
  both_key (some (wheel_payload dx dy)) = (λ h. cc, λ h. absurd h)
  both_key (some (key_payload code down up repeat modifiers)) =
      (λ h. ground arith, λ h. ground arith)
  both_key (some (touch_payload pointer x y down moved up)) = (λ h. cc, λ h. absurd h)

  missing : (p : Option (Payload Float)) → (from_payload p ≡ err missing_payload) ↔ (p ≡ none)
  unfolding from_payload
  missing none = (λ h. refl, λ h. refl)
  missing (some (mouse_payload x y buttons)) = (λ h. cc, λ h. cc)
  missing (some (wheel_payload dx dy)) = (λ h. cc, λ h. cc)
  missing (some (key_payload code down up repeat modifiers)) = (λ h. ground arith, λ h. cc)
  missing (some (touch_payload pointer x y down moved up)) = (λ h. cc, λ h. cc)

  payload_back :
      (p : Option (Payload Float)) (c : InputCommand Float)
      → from_payload p ≡ ok c
      → p ≡ some (payload_of c)
  unfolding from_payload
  payload_back none c h = cc
  payload_back (some (mouse_payload x y buttons)) c h =
      ap (λ d. some (payload_of d)) (ok_injective h)
  payload_back (some (wheel_payload dx dy)) c h = ap (λ d. some (payload_of d)) (ok_injective h)
  payload_back (some (key_payload code true true repeat modifiers)) c h = cc
  payload_back (some (key_payload code true false repeat modifiers)) c h =
      ap (λ d. some (payload_of d)) (ok_injective h)
  payload_back (some (key_payload code false up repeat modifiers)) c h =
      ap (λ d. some (payload_of d)) (ok_injective h)
  payload_back (some (touch_payload pointer x y down moved up)) c h =
      ap (λ d. some (payload_of d)) (ok_injective h)

  -- An event fails for want of a payload exactly if it has none, and for its key transition exactly if a key
  -- is pressed and released at once; any other becomes a command with every field of its payload.
  pub normalize_input_event_total :
      (event : InputEvent Float)
      → ((normalize_input_event event ≡ err missing_payload) ↔ (event.payload ≡ none))
        × ((normalize_input_event event ≡ err invalid_key_transition) ↔ IsBothKey event.payload)
        × ((c : InputCommand Float)
            → normalize_input_event event ≡ ok c
            → event.payload ≡ some (payload_of c))
  unfolding normalize_input_event
  normalize_input_event_total event =
      (missing event.payload, both_key event.payload, payload_back event.payload)
