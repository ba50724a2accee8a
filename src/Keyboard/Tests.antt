-- ===== src/Keyboard/Tests.antt =====
-- The keyboard at concrete states, the ring's end among them.
use gravityos.Base.{◌≡◌, refl, arith, true, false, List, [], ◌∷◌, none, some}
use gravityos.Keyboard.{
  Keyboard, buffer_put, put_key, key_char, key_pressed, key_released, lookup_key, apply_caps,
  apply_ctrl, keyboard_handle_byte, keyboard_has_input, keyboard_getchar,
}
use gravityos.Keyboard.Ring.{InBounds}
use gravityos.Keyboard.Refine.{Event, byte, read, run, abstract, typist_run, run_refines}

-- One character waits in the last place of the ring; Caps Lock is on.
abbrev at_the_end : Keyboard
at_the_end = record {
  shift_pressed = false;
  ctrl_pressed = false;
  caps_lock = true;
  buffer = λ _. b'x';
  head = 0;
  tail = 255;
}

at_the_end-InBounds : InBounds at_the_end
at_the_end-InBounds = record { head_in = omega arith; tail_in = omega arith }

-- Shift down, `a`, shift up, `a`, and three reads between and after.
abbrev typing : List Event
typing = byte 0x2A ∷ byte 0x1E ∷ read ∷ byte 0xAA ∷ byte 0x1E ∷ read ∷ read ∷ read ∷ []

typed : run at_the_end typing ≡ some b'x' ∷ some b'a' ∷ some b'A' ∷ none ∷ []
unfolding run keyboard_handle_byte keyboard_has_input keyboard_getchar key_pressed key_released
    buffer_put put_key key_char lookup_key apply_caps apply_ctrl
typed = refl

run_refines_example : run at_the_end typing ≡ typist_run (abstract at_the_end) typing
run_refines_example =
    run_refines typing at_the_end (omega arith, (omega arith, (omega arith, (omega arith, tt))))
      at_the_end-InBounds
