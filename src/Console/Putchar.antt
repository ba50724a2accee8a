-- ===== src/Console/Putchar.antt =====
-- fbcon_putchar, branch by branch: no store leaves the grid.
use gravityos.Base.{
  ℕ, ◌+◌, ◌<◌, ◌≤◌, refl, arith, Bool, true, false, not, ◌||◌, ltb, leb, ◌==◌, if◌then◌else◌,
  Bool-cases, inl, inr,
}
use gravityos.Console.Scroll.{scroll_grid_lem}
use gravityos.Console.{
  Console, cell_width, cell_height, draw_cell, redraw_all, fbcon_clear, fbcon_init, scroll_up,
  newline, cursor_hide, step_back, erase, put_here, put_char, put_space, fbcon_putchar,
}
use gravityos.Console.Bounds.{
  InGrid, same_refl, redraw_rows_same, cursor_hide_same, Within, same-Within, Within-trans,
}

newline-Within :
    (k : Console) → InGrid k → Within k (newline k) × ((newline k).cur_col < (newline k).con_cols)
unfolding newline scroll_up redraw_all
newline-Within k g = elim (Bool-cases (ltb (k.cur_row + 1) k.con_rows)) [
  | inl more ↦ rw more (
    record {
      in_grid = record {
        rows = g.rows;
        cols = g.cols;
        some_row = g.some_row;
        some_col = g.some_col;
        row_in = ground arith;
        col_in = omega arith;
      };
      rows = refl;
      cols = refl;
      ch = λ i j o. refl;
      fg = λ i j o. refl;
    },
    g.some_col,
  )
  | inr full ↦
      let s = redraw_rows_same k.con_rows 0 _ in
      rw full (
        Within-trans k _ _
            (record {
              in_grid = record {
                rows = g.rows;
                cols = g.cols;
                some_row = g.some_row;
                some_col = g.some_col;
                row_in = omega (arith, g.some_row);
                col_in = omega arith;
              };
              rows = refl;
              cols = refl;
              ch = λ i j o.
                  ground
                    (arith, scroll_grid_lem b' ' k.con_cols k.con_rows k.cell_ch i j g.some_row);
              fg = λ i j o.
                  ground (
                    arith,
                    scroll_grid_lem k.con_fg k.con_cols k.con_rows k.cell_fg i j g.some_row,
                  );
            })
            (same-Within _ _ s (record {
              rows = g.rows;
              cols = g.cols;
              some_row = g.some_row;
              some_col = g.some_col;
              row_in = omega (arith, g.some_row);
              col_in = omega arith;
            })),
        omega (arith, s.cols, s.col, g.some_col),
      )
]

step_back-Within :
    (k : Console)
    → InGrid k
    → Within k (step_back k) × ((step_back k).cur_col < (step_back k).con_cols)
unfolding step_back
step_back-Within k g = (
  record {
    in_grid = record {
      rows = ground (arith, g.rows);
      cols = ground (arith, g.cols);
      some_row = ground (arith, g.some_row);
      some_col = ground (arith, g.some_col);
      row_in = ground (arith, g.row_in);
      col_in = ground (arith, g.col_in, g.some_col);
    };
    rows = ground arith;
    cols = ground arith;
    ch = λ i j o. ground arith;
    fg = λ i j o. ground arith;
  },
  ground (arith, g.col_in, g.some_col),
)

erase-Within : (k : Console) → InGrid k → k.cur_col < k.con_cols → Within k (erase k)
unfolding erase draw_cell
erase-Within k g lt = record {
  in_grid = record {
    rows = g.rows;
    cols = g.cols;
    some_row = g.some_row;
    some_col = g.some_col;
    row_in = g.row_in;
    col_in = g.col_in;
  };
  rows = refl;
  cols = refl;
  ch = λ i j o. ground (arith, g.row_in);
  fg = λ i j o. refl;
}

put_here-Within :
    (k : Console) (c : ℕ) → InGrid k → k.cur_col < k.con_cols → Within k (put_here k c)
unfolding put_here draw_cell
put_here-Within k c g lt = record {
  in_grid = record {
    rows = g.rows;
    cols = g.cols;
    some_row = g.some_row;
    some_col = g.some_col;
    row_in = g.row_in;
    col_in = omega arith;
  };
  rows = refl;
  cols = refl;
  ch = λ i j o. ground (arith, g.row_in);
  fg = λ i j o. ground (arith, g.row_in);
}

stays : (k : Console) → InGrid k → Within k k
stays k g = same-Within k k (same_refl k) g

wrap-Within :
    (k : Console) (c : ℕ)
    → InGrid k
    → Within k (put_here (if leb k.con_cols k.cur_col then newline k else k) c)
wrap-Within k c g = elim (Bool-cases (leb k.con_cols k.cur_col)) [
  | inl full ↦
      let n = newline-Within k g in
      rw full (Within-trans k (newline k) _ n.0 (put_here-Within (newline k) c n.0.in_grid n.1))
  | inr room ↦ rw room (put_here-Within k c g (ground arith))
]

carriage_return-Within : (k : Console) → InGrid k → Within k (record k { cur_col = 0 })
carriage_return-Within k g = record {
  in_grid = record {
    rows = g.rows;
    cols = g.cols;
    some_row = g.some_row;
    some_col = g.some_col;
    row_in = g.row_in;
    col_in = omega arith;
  };
  rows = refl;
  cols = refl;
  ch = λ i j o. refl;
  fg = λ i j o. refl;
}

backspace-Within : (k : Console) → InGrid k → Within k (erase (step_back k))
backspace-Within k g =
    let b = step_back-Within k g in
    Within-trans k (step_back k) _ b.0 (erase-Within (step_back k) b.0.in_grid b.1)

if-Within : (b : Bool) (k x y : Console) → Within k x → Within k y → Within k (if b then x else y)
if-Within true k x y p q = p
if-Within false k x y p q = q

put_char-Within : (k : Console) (c : ℕ) → InGrid k → Within k (put_char k c)
unfolding put_char
put_char-Within k c g = if-Within (c == 10) k _ _ (newline-Within k g).0 (
    if-Within (c == 13) k _ _ (carriage_return-Within k g) (
      if-Within (c == 8) k _ _ (backspace-Within k g)
        (if-Within (ltb c 32 || ltb 126 c) k _ _ (stays k g) (wrap-Within k c g))))

hidden-Within : (k : Console) → InGrid k → Within k (cursor_hide k)
hidden-Within k g = same-Within k _ (cursor_hide_same k) g

put_space-Within : (k : Console) → InGrid k → Within k (put_space k)
unfolding put_space
put_space-Within k g =
    let h = hidden-Within k g in
    Within-trans k (cursor_hide k) _ h (put_char-Within (cursor_hide k) b' ' h.in_grid)

spaces-Within :
    (k : Console) → InGrid k → Within k (put_space (put_space (put_space (put_space k))))
spaces-Within k g =
    let a = put_space-Within k g in
    let b = put_space-Within (put_space k) a.in_grid in
    let c = put_space-Within (put_space (put_space k)) b.in_grid in
    let d = put_space-Within (put_space (put_space (put_space k))) c.in_grid in
    Within-trans k _ _ a (Within-trans _ _ _ b (Within-trans _ _ _ c d))

-- With the cursor in a grid of at least one cell within the arrays, fbcon_putchar of any character
-- keeps the cursor there and the grid's size, and writes no cell outside the grid.
pub putchar-Within : (k : Console) (c : ℕ) → InGrid k → Within k (fbcon_putchar k c)
unfolding fbcon_putchar
putchar-Within k c g =
    let h = hidden-Within k g in
    if-Within (not k.con_ready) k _ _ (stays k g) (
      if-Within (c == 9) k _ _
        (Within-trans k (cursor_hide k) _ h (spaces-Within (cursor_hide k) h.in_grid))
        (Within-trans k (cursor_hide k) _ h (put_char-Within (cursor_hide k) c h.in_grid)))

-- On an area of at least one cell, fbcon_init leaves the cursor in a grid that fits the arrays.
pub init-InGrid :
    (k : Console) (x y w h bg : ℕ)
    → cell_width ≤ w
    → cell_height ≤ h
    → InGrid (fbcon_init k x y w h bg)
unfolding fbcon_init fbcon_clear
init-InGrid k x y w h bg hw hh = record {
  rows = ground arith;
  cols = ground arith;
  some_row = ground arith;
  some_col = ground arith;
  row_in = ground arith;
  col_in = omega arith;
}
