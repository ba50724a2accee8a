-- ===== src/Mouse.antt =====
-- drivers/mouse.c, and the pixels of drivers/fb.c: the packets of the mouse, and the cursor on the screen.
-- An int32_t is its two's complement, a number below 2 ^ 32.
pub mod Screen
pub mod Packet
mod Tests
use gravityos.Base.{
  ℕ, zero, suc, ◌+◌, ◌-◌, ◌*◌, ◌/◌, ◌%◌, ◌^◌, Bool, true, false, not, ◌&&◌, ◌||◌, List, [], ◌∷◌,
  ◌++◌, map, ltb, leb, ◌==◌, if◌then◌else◌, update,
}

-- The static variables of fb.c; `mapped` says that fb_buffer is not NULL.
pub record Fb : Type 0 where
  pub fb_width : ℕ
  pub fb_height : ℕ
  pub fb_pitch : ℕ
  pub mapped : Bool
  pub fb_buffer : ℕ → ℕ

abbrev pub visible : ℕ → ℕ → Fb → Bool
visible x y fb = not (leb fb.fb_width x || (leb fb.fb_height y || not fb.mapped))

abbrev pub pixel_offset : ℕ → ℕ → Fb → ℕ
pixel_offset x y fb = (y * fb.fb_pitch % 2 ^ 32 / 4 + x) % 2 ^ 32

pub fb_putpixel : ℕ → ℕ → ℕ → Fb → Fb
fb_putpixel x y color fb =
    if visible x y fb
    then record fb { fb_buffer = update fb.fb_buffer (pixel_offset x y fb) color }
    else fb

pub fb_getpixel : ℕ → ℕ → Fb → ℕ
fb_getpixel x y fb = if visible x y fb then fb.fb_buffer (pixel_offset x y fb) else 0

-- The pairs (i, j) of two nested loops, in their order: `n` columns from `j` on, and `h` rows from `i` on.
abbrev pub columns : ℕ → ℕ → ℕ → List (ℕ × ℕ)
columns i zero j = []
columns i (suc n) j = (i, j) ∷ columns i n (j + 1)

abbrev pub cells : ℕ → ℕ → ℕ → List (ℕ × ℕ)
cells zero w i = []
cells (suc h) w i = columns i w 0 ++ cells h w (i + 1)

pub put_cells : (ℕ → ℕ → ℕ) → ℕ → ℕ → List (ℕ × ℕ) → Fb → Fb
put_cells color x y [] fb = fb
put_cells color x y ((i, j) ∷ rest) fb =
    put_cells color x y rest (fb_putpixel ((x + j) % 2 ^ 32) ((y + i) % 2 ^ 32) (color i j) fb)

abbrev pub fb_draw_rect : ℕ → ℕ → ℕ → ℕ → ℕ → Fb → Fb
fb_draw_rect x y width height color fb = put_cells (λ i j. color) x y (cells height width 0) fb

-- CURSOR_SIZE, and FB_COLOR(255, 0, 0).
abbrev pub cursor_size : ℕ
cursor_size = 5

abbrev pub red : ℕ
red = 255 * 2 ^ 16

pub record Mouse : Type 0 where
  pub mouse_x : ℕ
  pub mouse_y : ℕ
  pub mouse_left_pressed : ℕ
  pub mouse_right_pressed : ℕ
  pub mouse_cycle : ℕ
  pub byte0 : ℕ
  pub byte1 : ℕ
  pub byte2 : ℕ
  pub saved_pixels : ℕ → ℕ → ℕ
  pub saved_valid : Bool
  pub old_x : ℕ
  pub old_y : ℕ
  pub screen : Fb

-- The pixels under the old cursor are put back.
pub restored : Mouse → Fb
restored m =
    if m.saved_valid
    then put_cells m.saved_pixels m.old_x m.old_y (cells cursor_size cursor_size 0) m.screen
    else m.screen

abbrev pub draw_cross : ℕ → ℕ → Fb → Fb
draw_cross x y fb =
    fb_draw_rect ((x + 2) % 2 ^ 32) y 1 cursor_size red
      (fb_draw_rect x ((y + 2) % 2 ^ 32) cursor_size 1 red fb)

pub draw_mouse_cursor : ℕ → ℕ → Mouse → Mouse
draw_mouse_cursor x y m =
    let fb = restored m in
    record m {
      saved_pixels = λ i j. fb_getpixel ((x + j) % 2 ^ 32) ((y + i) % 2 ^ 32) fb;
      saved_valid = true;
      screen = draw_cross x y fb;
      old_x = x;
      old_y = y;
    }

-- `a < b` on two's complements.
abbrev pub less : ℕ → ℕ → Bool
less a b = ltb ((a + 2 ^ 31) % 2 ^ 32) ((b + 2 ^ 31) % 2 ^ 32)

-- A coordinate that is held between 0 and a greatest value.
abbrev pub clamp : ℕ → ℕ → ℕ
clamp v most = let low = if less v 0 then 0 else v in if less most low then most else low

-- The movement in a byte, with its sign from the first one.
abbrev pub movement : ℕ → Bool → ℕ
movement byte negative = (byte + 2 ^ 32 - (if negative then 256 else 0)) % 2 ^ 32

abbrev pub moved : ℕ → ℕ → Mouse → Mouse
moved rel_x rel_y m =
    let max_x = (m.screen.fb_width + 2 ^ 32 - cursor_size) % 2 ^ 32 in
    let max_y = (m.screen.fb_height + 2 ^ 32 - cursor_size) % 2 ^ 32 in
    record m {
      mouse_x = clamp ((m.mouse_x + rel_x) % 2 ^ 32) max_x;
      mouse_y = clamp ((m.mouse_y + 2 ^ 32 - rel_y) % 2 ^ 32) max_y;
    }

-- What follows the third byte.
pub packet_done : Mouse → Mouse
packet_done m =
    let pressed = record m {
      mouse_left_pressed = m.byte0 % 2;
      mouse_right_pressed = m.byte0 / 2 % 2 * 2;
    } in
    let rel_x = movement m.byte1 (not (m.byte0 / 16 % 2 == 0)) in
    let rel_y = movement m.byte2 (not (m.byte0 / 32 % 2 == 0)) in
    let m' = moved rel_x rel_y pressed in
    if not (m.byte0 / 64 == 0)
    then m
    else if (rel_x == 0) && (rel_y == 0)
    then pressed
    else draw_mouse_cursor m'.mouse_x m'.mouse_y m'

pub mouse_handle_byte : ℕ → Mouse → Mouse
mouse_handle_byte byte m =
    if m.mouse_cycle == 0
    then (if byte / 8 % 2 == 0 then m else record m { byte0 = byte; mouse_cycle = 1 })
    else if m.mouse_cycle == 1
    then record m { byte1 = byte; mouse_cycle = 2 }
    else if m.mouse_cycle == 2
    then packet_done (record m { byte2 = byte; mouse_cycle = 0 })
    else record m { mouse_cycle = 0 }

-- A byte for each interrupt.
pub handle_bytes : List ℕ → Mouse → Mouse
handle_bytes [] m = m
handle_bytes (b ∷ bs) m = handle_bytes bs (mouse_handle_byte b m)
