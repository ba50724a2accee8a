-- ===== src/Keyboard.antt =====
-- drivers/keyboard.c: scancodes to characters, and the ring in which the characters wait. The static
-- variables are the fields of `Keyboard`. The flags are Booleans; a character is its code, and all
-- codes of the tables are below 128, so a signed char and its byte are the same number.
pub mod Decode
pub mod Ring
pub mod Refine
mod Tests
use gravityos.Base.{
  ℕ, ◌+◌, ◌-◌, ◌/◌, ◌%◌, Bool, true, false, not, ◌&&◌, ◌||◌, List, [], ◌∷◌, Option, none, some, ltb,
  leb, ◌==◌, if◌then◌else◌, update, length, get_or,
}

-- KB_BUFFER_SIZE.
abbrev pub buffer_size : ℕ
buffer_size = 256

pub record Keyboard : Type 0 where
  pub shift_pressed : Bool
  pub ctrl_pressed : Bool
  pub caps_lock : Bool
  pub buffer : ℕ → ℕ
  pub head : ℕ
  pub tail : ℕ

abbrev pub scancode_to_ascii : List ℕ
scancode_to_ascii =
    0 ∷ 0 ∷ b'1' ∷ b'2' ∷ b'3' ∷ b'4' ∷ b'5' ∷ b'6' ∷ b'7' ∷ b'8' ∷ b'9' ∷ b'0' ∷ b'-' ∷ b'=' ∷ 8
    ∷ 9 ∷ b'q' ∷ b'w' ∷ b'e' ∷ b'r' ∷ b't' ∷ b'y' ∷ b'u' ∷ b'i' ∷ b'o' ∷ b'p' ∷ b'[' ∷ b']' ∷ 10 ∷ 0
    ∷ b'a' ∷ b's' ∷ b'd' ∷ b'f' ∷ b'g' ∷ b'h' ∷ b'j' ∷ b'k' ∷ b'l' ∷ b';' ∷ 39 ∷ b'`' ∷ 0 ∷ 92
    ∷ b'z' ∷ b'x' ∷ b'c' ∷ b'v' ∷ b'b' ∷ b'n' ∷ b'm' ∷ b',' ∷ b'.' ∷ b'/' ∷ 0 ∷ b'*' ∷ 0 ∷ b' ' ∷ 0
    ∷ 0 ∷ 0 ∷ 0 ∷ 0 ∷ 0 ∷ 0 ∷ 0 ∷ 0 ∷ 0 ∷ 0 ∷ 0 ∷ 0 ∷ b'7' ∷ b'8' ∷ b'9' ∷ b'-' ∷ b'4' ∷ b'5' ∷ b'6'
    ∷ b'+' ∷ b'1' ∷ b'2' ∷ b'3' ∷ b'0' ∷ b'.' ∷ 0 ∷ 0 ∷ 0 ∷ 0 ∷ []

abbrev pub scancode_to_ascii_shift : List ℕ
scancode_to_ascii_shift =
    0 ∷ 0 ∷ b'!' ∷ b'@' ∷ b'#' ∷ b'$' ∷ b'%' ∷ b'^' ∷ b'&' ∷ b'*' ∷ b'(' ∷ b')' ∷ b'_' ∷ b'+' ∷ 8
    ∷ 9 ∷ b'Q' ∷ b'W' ∷ b'E' ∷ b'R' ∷ b'T' ∷ b'Y' ∷ b'U' ∷ b'I' ∷ b'O' ∷ b'P' ∷ 123 ∷ 125 ∷ 10 ∷ 0
    ∷ b'A' ∷ b'S' ∷ b'D' ∷ b'F' ∷ b'G' ∷ b'H' ∷ b'J' ∷ b'K' ∷ b'L' ∷ b':' ∷ 34 ∷ b'~' ∷ 0 ∷ b'|'
    ∷ b'Z' ∷ b'X' ∷ b'C' ∷ b'V' ∷ b'B' ∷ b'N' ∷ b'M' ∷ b'<' ∷ b'>' ∷ b'?' ∷ 0 ∷ b'*' ∷ 0 ∷ b' ' ∷ 0
    ∷ 0 ∷ 0 ∷ 0 ∷ 0 ∷ 0 ∷ []

unfoldable pub buffer_put : Keyboard → ℕ → Keyboard
buffer_put k c =
    let next = (k.head + 1) % buffer_size in
    if next == k.tail then k else record k { buffer = update k.buffer k.head c; head = next }

abbrev pub is_lower : ℕ → Bool
is_lower c = leb b'a' c && leb c b'z'

abbrev pub is_upper : ℕ → Bool
is_upper c = leb b'A' c && leb c b'Z'

-- The tables' character of a key, 0 for none.
unfoldable pub lookup_key : Bool → ℕ → ℕ
lookup_key true scancode =
    if ltb scancode (length scancode_to_ascii_shift)
    then get_or scancode_to_ascii_shift scancode 0
    else 0
lookup_key false scancode = get_or scancode_to_ascii scancode 0

-- Caps Lock acts on letters alone.
unfoldable pub apply_caps : Bool → Bool → ℕ → ℕ
apply_caps true false c = if is_lower c then c - 32 else c
apply_caps true true c = if is_upper c then c + 32 else c
apply_caps false shift c = c

unfoldable pub apply_ctrl : Bool → ℕ → ℕ
apply_ctrl ctrl c = if ctrl && is_lower c then c - b'a' + 1 else c

-- The character that a pressed key puts into the ring, if it puts one there.
unfoldable pub key_char : Bool → Bool → Bool → ℕ → Option ℕ
key_char shift ctrl caps scancode =
    if leb (length scancode_to_ascii) scancode
    then none
    else let c = lookup_key shift scancode in
      if c == 0 then none else some (apply_ctrl ctrl (apply_caps caps shift c))

pub put_key : Keyboard → Option ℕ → Keyboard
put_key k none = k
put_key k (some c) = buffer_put k c

pub key_released : Keyboard → ℕ → Keyboard
key_released k released =
    if (released == 0x2A) || (released == 0x36)
    then record k { shift_pressed = false }
    else if released == 0x1D
    then record k { ctrl_pressed = false }
    else k

pub key_pressed : Keyboard → ℕ → Keyboard
key_pressed k scancode =
    if (scancode == 0x2A) || (scancode == 0x36)
    then record k { shift_pressed = true }
    else if scancode == 0x1D
    then record k { ctrl_pressed = true }
    else if scancode == 0x3A
    then record k { caps_lock = not k.caps_lock }
    else if scancode == 0x38
    then k
    else put_key k (key_char k.shift_pressed k.ctrl_pressed k.caps_lock scancode)

-- Bit 7 of the scancode marks a release.
pub keyboard_handle_byte : Keyboard → ℕ → Keyboard
keyboard_handle_byte k scancode =
    if scancode / 128 % 2 == 1 then key_released k (scancode % 128) else key_pressed k scancode

pub keyboard_has_input : Keyboard → Bool
keyboard_has_input k = not (k.head == k.tail)

-- `none` where the caller would wait for an interrupt.
pub keyboard_getchar : Keyboard → Option (ℕ × Keyboard)
keyboard_getchar k =
    if keyboard_has_input k
    then some (k.buffer k.tail, record k { tail = (k.tail + 1) % buffer_size })
    else none
