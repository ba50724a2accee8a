-- ===== src/Mouse/Packet.antt =====
-- The packets: where the cursor goes, and that it stays on the screen.
use gravityos.Base.{
  ℕ, ◌+◌, ◌-◌, ◌*◌, ◌/◌, ◌%◌, ◌^◌, ◌<◌, ◌≤◌, ◌≡◌, refl, arith, Bool, true, false, not, ◌&&◌, List,
  [], ◌∷◌, ◌==◌, if◌then◌else◌, Bool-cases, inl, inr, dec_lt, ◌∙◌, min,
}
use gravityos.Mouse.{
  Fb, Mouse, draw_mouse_cursor, clamp, movement, moved, packet_done, mouse_handle_byte,
  handle_bytes,
}
use gravityos.Mouse.Screen.{draw-Drawn}

-- The screen has room for the cursor, and no coordinate near it overflows an int32_t.
abbrev pub IsScreen : Fb → Type 0
IsScreen fb =
    (5 ≤ fb.fb_width) × (fb.fb_width < 2 ^ 30) × (5 ≤ fb.fb_height) × (fb.fb_height < 2 ^ 30)

-- A movement is a number from -256 to 255.
clamp_add :
    (x byte n width : ℕ) (negative : Bool)
    → x + 5 ≤ width
    → width < 2 ^ 30
    → byte < 256
    → n ≡ (if negative then 256 else 0)
    → clamp ((x + movement byte negative) % 2 ^ 32) ((width + 2 ^ 32 - 5) % 2 ^ 32)
      ≡ min (x + byte - n) (width - 5)
clamp_add x byte n width true h w b e = ground arith
clamp_add x byte n width false h w b e = ground arith

clamp_sub :
    (y byte n height : ℕ) (negative : Bool)
    → y + 5 ≤ height
    → height < 2 ^ 30
    → byte < 256
    → n ≡ (if negative then 256 else 0)
    → clamp ((y + 2 ^ 32 - movement byte negative) % 2 ^ 32) ((height + 2 ^ 32 - 5) % 2 ^ 32)
      ≡ min (y + n - byte) (height - 5)
clamp_sub y byte n height true h w b e =
    let v : (y + 2 ^ 32 - movement byte true) % 2 ^ 32 ≡ y + 256 - byte = omega arith in
    rw (v, e) (ground arith)
clamp_sub y byte n height false h w b e =
    let v : movement byte false ≡ byte = omega arith in rw (v, e) (ground arith)

-- The cursor lies on the screen.
abbrev pub IsHeld : Mouse → Type 0
IsHeld m =
    IsScreen m.screen × (m.mouse_x + 5 ≤ m.screen.fb_width) × (m.mouse_y + 5 ≤ m.screen.fb_height)

-- The 256 of a movement with its sign bit set.
abbrev pub sign : Bool → ℕ
sign negative = if negative then 256 else 0

-- Where a packet takes the cursor, and the buttons that it shows.
abbrev pub Follows : Mouse → ℕ → ℕ → ℕ → Mouse → Type 0
Follows m b0 b1 b2 m' =
    (m'.mouse_x ≡ min (m.mouse_x + b1 - sign (not (b0 / 16 % 2 == 0))) (m.screen.fb_width - 5))
    × (m'.mouse_y ≡ min (m.mouse_y + sign (not (b0 / 32 % 2 == 0)) - b2) (m.screen.fb_height - 5))
    × (m'.mouse_left_pressed ≡ b0 % 2)
    × (m'.mouse_right_pressed ≡ b0 / 2 % 2 * 2)
    × (m'.mouse_cycle ≡ 0)
    × IsHeld m'

still :
    (x byte width : ℕ) (negative : Bool)
    → x + 5 ≤ width
    → byte < 256
    → movement byte negative ≡ 0
    → (x ≡ min (x + byte - sign negative) (width - 5))
      × (x ≡ min (x + sign negative - byte) (width - 5))
still x byte width true h b e = absurd (omega arith)
still x byte width false h b e = (omega arith, omega arith)

abbrev rel_x : Mouse → ℕ
rel_x m = movement m.byte1 (not (m.byte0 / 16 % 2 == 0))

abbrev rel_y : Mouse → ℕ
rel_y m = movement m.byte2 (not (m.byte0 / 32 % 2 == 0))

abbrev pressed : Mouse → Mouse
pressed m = record m { mouse_left_pressed = m.byte0 % 2; mouse_right_pressed = m.byte0 / 2 % 2 * 2 }

module _ (m : Mouse) (held : IsHeld m) (small1 : m.byte1 < 256) (small2 : m.byte2 < 256)
    (idle : m.mouse_cycle ≡ 0) where
  still-Follows :
      (rel_x m == 0) ≡ true → (rel_y m == 0) ≡ true → Follows m m.byte0 m.byte1 m.byte2 (pressed m)
  still-Follows zx zy =
      let ((w, w', h, h'), hx, hy) = held in
      let (a, _) =
        still m.mouse_x m.byte1 m.screen.fb_width (not (m.byte0 / 16 % 2 == 0)) hx small1
          (ground arith) in
      let (_, b) =
        still m.mouse_y m.byte2 m.screen.fb_height (not (m.byte0 / 32 % 2 == 0)) hy small2
          (ground arith) in
      (a, b, refl, refl, idle, held)

  moved-Follows :
      let m' = moved (rel_x m) (rel_y m) (pressed m) in
      Follows m m.byte0 m.byte1 m.byte2 (draw_mouse_cursor m'.mouse_x m'.mouse_y m')
  moved-Follows =
      let ((w, w', h, h'), hx, hy) = held in
      let m' = moved (rel_x m) (rel_y m) (pressed m) in
      let ((sw, sh), dx, dy, dl, dr, dc) = draw-Drawn m'.mouse_x m'.mouse_y m' in
      let nx = not (m.byte0 / 16 % 2 == 0) in
      let ny = not (m.byte0 / 32 % 2 == 0) in
      let x = clamp_add m.mouse_x m.byte1 (sign nx) m.screen.fb_width nx hx w' small1 refl in
      let y = clamp_sub m.mouse_y m.byte2 (sign ny) m.screen.fb_height ny hy h' small2 refl in
      (
        dx ∙ x,
        dy ∙ y,
        dl,
        dr,
        dc ∙ idle,
        (
          (omega (arith, sw), omega (arith, sw), omega (arith, sh), omega (arith, sh)),
          omega (arith, sw, dx ∙ x),
          omega (arith, sh, dy ∙ y),
        ),
      )

  packet_done-Follows : m.byte0 < 64 → Follows m m.byte0 m.byte1 m.byte2 (packet_done m)
  unfolding packet_done
  packet_done-Follows small0 =
      let ok : (m.byte0 / 64 == 0) ≡ true = ground arith in
      elim (Bool-cases (rel_x m == 0)) [
        | inr go ↦ rw (ok, go) moved-Follows
        | inl zx ↦ elim (Bool-cases (rel_y m == 0)) [
          | inr go ↦ rw (ok, zx, go) moved-Follows
          | inl zy ↦ rw (ok, zx, zy) (still-Follows zx zy)
        ]
      ]

-- Three bytes from the start of a packet, the first with its bit 3 and without the overflow bits: the
-- cursor moves by the signed numbers of nine bits that they carry, up being less, and is held on the
-- screen; the buttons are the first byte's bits, and the driver waits for the next packet.
pub packet_lem :
    (m : Mouse) (b0 b1 b2 : ℕ)
    → IsHeld m
    → m.mouse_cycle ≡ 0
    → b0 < 64
    → b0 / 8 % 2 ≡ 1
    → b1 < 256
    → b2 < 256
    → Follows m b0 b1 b2 (handle_bytes (b0 ∷ b1 ∷ b2 ∷ []) m)
unfolding handle_bytes mouse_handle_byte
packet_lem m b0 b1 b2 held idle small0 sync small1 small2 =
    let on : (b0 / 8 % 2 == 0) ≡ false = ground arith in
    let start : (m.mouse_cycle == 0) ≡ true = ground arith in
    rw (start, on)
      (packet_done-Follows (record m { byte0 = b0; byte1 = b1; byte2 = b2; mouse_cycle = 0 }) held
        small1 small2 refl small0)

-- A packet with an overflow bit is dropped: neither the cursor, the buttons nor the screen change.
pub overflow_lem :
    (m : Mouse) (b0 b1 b2 : ℕ)
    → m.mouse_cycle ≡ 0
    → 64 ≤ b0
    → b0 / 8 % 2 ≡ 1
    → let m' = handle_bytes (b0 ∷ b1 ∷ b2 ∷ []) m in
      (m'.mouse_x ≡ m.mouse_x)
      × (m'.mouse_y ≡ m.mouse_y)
      × (m'.mouse_left_pressed ≡ m.mouse_left_pressed)
      × (m'.mouse_right_pressed ≡ m.mouse_right_pressed)
      × (m'.screen ≡ m.screen)
      × (m'.mouse_cycle ≡ 0)
unfolding handle_bytes mouse_handle_byte packet_done
overflow_lem m b0 b1 b2 idle over sync =
    let on : (b0 / 8 % 2 == 0) ≡ false = ground arith in
    let start : (m.mouse_cycle == 0) ≡ true = ground arith in
    let drop : (b0 / 64 == 0) ≡ false = ground arith in
    rw (start, on, drop) (refl, refl, refl, refl, refl, refl)

-- The state between two bytes: the cursor on the screen, bytes in the packet's buffer, and one of the
-- three places in a packet.
abbrev pub IsSane : Mouse → Type 0
IsSane m = IsHeld m × (m.byte0 < 256) × (m.byte1 < 256) × (m.byte2 < 256) × (m.mouse_cycle < 3)

packet_done-bytes :
    (m : Mouse)
    → ((packet_done m).byte0 ≡ m.byte0)
      × ((packet_done m).byte1 ≡ m.byte1)
      × ((packet_done m).byte2 ≡ m.byte2)
unfolding packet_done draw_mouse_cursor
packet_done-bytes m = elim (Bool-cases (m.byte0 / 64 == 0)) [
  | inr drop ↦ rw drop (refl, refl, refl)
  | inl ok ↦ elim (Bool-cases ((rel_x m == 0) && (rel_y m == 0))) [
    | inl rest ↦ rw (ok, rest) (refl, refl, refl)
    | inr go ↦ rw (ok, go) (refl, refl, refl)
  ]
]

packet_done-dropped :
    (m : Mouse)
    → IsHeld m
    → m.mouse_cycle ≡ 0
    → 64 ≤ m.byte0
    → IsHeld (packet_done m) × ((packet_done m).mouse_cycle < 3)
unfolding packet_done
packet_done-dropped m held idle large =
    let drop : (m.byte0 / 64 == 0) ≡ false = ground arith in rw drop (held, omega arith)

packet_done-IsSane :
    (m : Mouse)
    → IsHeld m
    → m.byte0 < 256
    → m.byte1 < 256
    → m.byte2 < 256
    → m.mouse_cycle ≡ 0
    → IsSane (packet_done m)
packet_done-IsSane m held h0 h1 h2 idle =
    let (e0, e1, e2) = packet_done-bytes m in
    let (a, c) = after m held h1 h2 idle in (a, omega arith, omega arith, omega arith, c)
  where
    after :
        (m : Mouse)
        → IsHeld m
        → m.byte1 < 256
        → m.byte2 < 256
        → m.mouse_cycle ≡ 0
        → IsHeld (packet_done m) × ((packet_done m).mouse_cycle < 3)
    after m held h1 h2 idle = elim (dec_lt m.byte0 64) [
      | yes small ↦
          let (_, _, _, _, c, a) = packet_done-Follows m held h1 h2 idle small in (a, omega arith)
      | no large ↦ packet_done-dropped m held idle (omega arith)
    ]

byte-IsSane : (b : ℕ) (m : Mouse) → b < 256 → IsSane m → IsSane (mouse_handle_byte b m)
unfolding mouse_handle_byte
byte-IsSane b m small (held, h0, h1, h2, place) = elim (Bool-cases (m.mouse_cycle == 0)) [
  | inl first ↦ elim (Bool-cases (b / 8 % 2 == 0)) [
    | inl lost ↦ rw (first, lost) (held, h0, h1, h2, place)
    | inr sync ↦ rw (first, sync) (held, small, h1, h2, omega arith)
  ]
  | inr later ↦ elim (Bool-cases (m.mouse_cycle == 1)) [
    | inl second ↦ rw (later, second) (held, h0, small, h2, omega arith)
    | inr last ↦
        let third : (m.mouse_cycle == 2) ≡ true = ground arith in
        rw (later, last, third)
          (packet_done-IsSane (record m { byte2 = b; mouse_cycle = 0 }) held h0 h1 small refl)
  ]
]

abbrev pub AreBytes : List ℕ → Type 0
AreBytes [] = Unit {0}
AreBytes (b ∷ bs) = (b < 256) × AreBytes bs

-- Whatever bytes arrive, the cursor stays on the screen, and the driver in one of the three places of a
-- packet.
pub handle_bytes-IsSane :
    (bs : List ℕ) (m : Mouse) → AreBytes bs → IsSane m → IsSane (handle_bytes bs m)
unfolding handle_bytes
handle_bytes-IsSane [] m h sane = sane
handle_bytes-IsSane (b ∷ bs) m (h, hs) sane =
    handle_bytes-IsSane bs (mouse_handle_byte b m) hs (byte-IsSane b m h sane)
