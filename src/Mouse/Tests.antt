-- ===== src/Mouse/Tests.antt =====
-- A screen of 64 by 48 pixels, and packets.
use gravityos.Base.{refl, arith, false, true, [], ◌∷◌}
use gravityos.Mouse.{Mouse, handle_bytes}
use gravityos.Mouse.Packet.{Follows, IsSane, packet_lem, handle_bytes-IsSane}

abbrev mouse : Mouse
mouse = record {
  mouse_x = 32;
  mouse_y = 24;
  mouse_left_pressed = 0;
  mouse_right_pressed = 0;
  mouse_cycle = 0;
  byte0 = 0;
  byte1 = 0;
  byte2 = 0;
  saved_pixels = λ i j. 0;
  saved_valid = false;
  old_x = 32;
  old_y = 24;
  screen = record {
    fb_width = 64;
    fb_height = 48;
    fb_pitch = 256;
    mapped = true;
    fb_buffer = λ i. i;
  };
}

packet_lem_example : Follows mouse 0x19 0xF0 3 (handle_bytes (0x19 ∷ 0xF0 ∷ 3 ∷ []) mouse)
packet_lem_example =
    packet_lem mouse 0x19 0xF0 3
      ((omega arith, omega arith, omega arith, omega arith), omega arith, omega arith) refl
      (omega arith) refl (omega arith) (omega arith)

handle_bytes-IsSane_example : IsSane (handle_bytes (0x10 ∷ 0x08 ∷ 0xFF ∷ 0xFF ∷ 0x49 ∷ []) mouse)
handle_bytes-IsSane_example =
    handle_bytes-IsSane (0x10 ∷ 0x08 ∷ 0xFF ∷ 0xFF ∷ 0x49 ∷ []) mouse (omega arith) (
      ((omega arith, omega arith, omega arith, omega arith), omega arith, omega arith),
      omega arith,
      omega arith,
      omega arith,
      omega arith,
    )
