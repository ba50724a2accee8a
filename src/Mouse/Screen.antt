-- ===== src/Mouse/Screen.antt =====
-- What drawing leaves alone: the screen's size, and the rest of the driver's state.
use gravityos.Base.{
  ℕ, ◌+◌, ◌%◌, ◌^◌, ◌≡◌, refl, arith, List, [], ◌∷◌, if◌then◌else◌, Bool-cases, inl, inr, ap, ◌∙◌,
}
use gravityos.Mouse.{
  Fb, fb_putpixel, put_cells, cells, fb_draw_rect, cursor_size, red, Mouse, restored,
  draw_mouse_cursor,
}

abbrev pub SameSize : Fb → Fb → Type 0
SameSize fb fb' = (fb'.fb_width ≡ fb.fb_width) × (fb'.fb_height ≡ fb.fb_height)

putpixel-SameSize : (x y color : ℕ) (fb : Fb) → SameSize fb (fb_putpixel x y color fb)
unfolding fb_putpixel
putpixel-SameSize x y color fb = (ground arith, ground arith)

put_cells-SameSize :
    (color : ℕ → ℕ → ℕ) (x y : ℕ) (l : List (ℕ × ℕ)) (fb : Fb)
    → SameSize fb (put_cells color x y l fb)
unfolding put_cells
put_cells-SameSize color x y [] fb = (refl, refl)
put_cells-SameSize color x y ((i, j) ∷ rest) fb =
    let here = fb_putpixel ((x + j) % 2 ^ 32) ((y + i) % 2 ^ 32) (color i j) fb in
    let (a, b) = put_cells-SameSize color x y rest here in
    let (c, d) = putpixel-SameSize ((x + j) % 2 ^ 32) ((y + i) % 2 ^ 32) (color i j) fb in
    (a ∙ c, b ∙ d)

screen-SameSize :
    (color : ℕ) (x y width height : ℕ) (fb : Fb)
    → SameSize fb (fb_draw_rect x y width height color fb)
screen-SameSize color x y width height fb =
    put_cells-SameSize (λ i j. color) x y (cells height width 0) fb

restored-SameSize : (m : Mouse) → SameSize m.screen (restored m)
unfolding restored
restored-SameSize m = elim (Bool-cases m.saved_valid) [
  | inl on ↦
      let (a, b) =
        put_cells-SameSize m.saved_pixels m.old_x m.old_y (cells cursor_size cursor_size 0)
          m.screen in
      (
        ap
              (λ t.
                (if t
                  then put_cells m.saved_pixels m.old_x m.old_y (cells cursor_size cursor_size 0)
                      m.screen
                  else m.screen).fb_width)
              on
            ∙ a,
        ap
              (λ t.
                (if t
                  then put_cells m.saved_pixels m.old_x m.old_y (cells cursor_size cursor_size 0)
                      m.screen
                  else m.screen).fb_height)
              on
            ∙ b,
      )
  | inr off ↦ (
    ap
        (λ t.
          (if t
            then put_cells m.saved_pixels m.old_x m.old_y (cells cursor_size cursor_size 0) m.screen
            else m.screen).fb_width)
        off,
    ap
        (λ t.
          (if t
            then put_cells m.saved_pixels m.old_x m.old_y (cells cursor_size cursor_size 0) m.screen
            else m.screen).fb_height)
        off,
  )
]

-- Drawing the cursor moves nothing but pixels.
abbrev pub Drawn : Mouse → Mouse → Type 0
Drawn m m' =
    SameSize m.screen m'.screen
    × (m'.mouse_x ≡ m.mouse_x)
    × (m'.mouse_y ≡ m.mouse_y)
    × (m'.mouse_left_pressed ≡ m.mouse_left_pressed)
    × (m'.mouse_right_pressed ≡ m.mouse_right_pressed)
    × (m'.mouse_cycle ≡ m.mouse_cycle)

pub draw-Drawn : (x y : ℕ) (m : Mouse) → Drawn m (draw_mouse_cursor x y m)
unfolding draw_mouse_cursor
draw-Drawn x y m =
    let (a, b) = restored-SameSize m in
    let (c, d) = screen-SameSize red x ((y + 2) % 2 ^ 32) cursor_size 1 (restored m) in
    let (e, f) =
      screen-SameSize red ((x + 2) % 2 ^ 32) y 1 cursor_size
        (fb_draw_rect x ((y + 2) % 2 ^ 32) cursor_size 1 red (restored m)) in
    ((e ∙ (c ∙ a), f ∙ (d ∙ b)), refl, refl, refl, refl, refl)
