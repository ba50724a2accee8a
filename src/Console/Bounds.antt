-- ===== src/Console/Bounds.antt =====
-- Where the console's cursor may be, and what drawing leaves alone.
use gravityos.Base.{ℕ, zero, suc, ◌+◌, ◌<◌, ◌≤◌, ◌≡◌, refl, arith, Bool, true, ◌||◌, leb, ◌∙◌}
use gravityos.Console.{Console, max_cols, max_rows, draw_cell, redraw_row, redraw_rows, cursor_hide}

-- The grid has at least one cell and fits the arrays, and the cursor is in it; behind a full row its
-- column is the grid's width.
pub record InGrid (k : Console) : Type 0 where
  pub rows : k.con_rows ≤ max_rows
  pub cols : k.con_cols ≤ max_cols
  pub some_row : 0 < k.con_rows
  pub some_col : 0 < k.con_cols
  pub row_in : k.cur_row < k.con_rows
  pub col_in : k.cur_col ≤ k.con_cols

-- A cell that is not one of the grid's.
abbrev pub outside : Console → ℕ → ℕ → Bool
outside k i j = leb k.con_rows i || leb k.con_cols j

-- All but what was drawn, and whether the cursor shows.
pub record SameBounds (k k' : Console) : Type 0 where
  pub rows : k'.con_rows ≡ k.con_rows
  pub cols : k'.con_cols ≡ k.con_cols
  pub row : k'.cur_row ≡ k.cur_row
  pub col : k'.cur_col ≡ k.cur_col
  pub ch : (i j : ℕ) → k'.cell_ch i j ≡ k.cell_ch i j
  pub fg : (i j : ℕ) → k'.cell_fg i j ≡ k.cell_fg i j

pub same_refl : (k : Console) → SameBounds k k
same_refl k = record {
  rows = refl;
  cols = refl;
  row = refl;
  col = refl;
  ch = λ i j. refl;
  fg = λ i j. refl;
}

same_trans : (a b c : Console) → SameBounds a b → SameBounds b c → SameBounds a c
same_trans a b c s t = record {
  rows = t.rows ∙ s.rows;
  cols = t.cols ∙ s.cols;
  row = t.row ∙ s.row;
  col = t.col ∙ s.col;
  ch = λ i j. t.ch i j ∙ s.ch i j;
  fg = λ i j. t.fg i j ∙ s.fg i j;
}

pub draw_cell_same : (k : Console) (r c : ℕ) → SameBounds k (draw_cell k r c)
unfolding draw_cell
draw_cell_same k r c = record {
  rows = refl;
  cols = refl;
  row = refl;
  col = refl;
  ch = λ i j. refl;
  fg = λ i j. refl;
}

redraw_row_same : (n r c : ℕ) (k : Console) → SameBounds k (redraw_row n r c k)
unfolding redraw_row
redraw_row_same zero r c k = same_refl k
redraw_row_same (suc n) r c k =
    same_trans k (draw_cell k r c) _ (draw_cell_same k r c)
      (redraw_row_same n r (c + 1) (draw_cell k r c))

pub redraw_rows_same : (n r : ℕ) (k : Console) → SameBounds k (redraw_rows n r k)
unfolding redraw_rows
redraw_rows_same zero r k = same_refl k
redraw_rows_same (suc n) r k =
    same_trans k (redraw_row k.con_cols r 0 k) _ (redraw_row_same k.con_cols r 0 k)
      (redraw_rows_same n (r + 1) (redraw_row k.con_cols r 0 k))

pub cursor_hide_same : (k : Console) → SameBounds k (cursor_hide k)
unfolding cursor_hide draw_cell
cursor_hide_same k = record {
  rows = ground arith;
  cols = ground arith;
  row = ground arith;
  col = ground arith;
  ch = λ i j. ground arith;
  fg = λ i j. ground arith;
}

-- From `k` to `k'` the grid keeps its size, and no cell outside it is written.
pub record Within (k k' : Console) : Type 0 where
  pub in_grid : InGrid k'
  pub rows : k'.con_rows ≡ k.con_rows
  pub cols : k'.con_cols ≡ k.con_cols
  pub ch : (i j : ℕ) → outside k i j ≡ true → k'.cell_ch i j ≡ k.cell_ch i j
  pub fg : (i j : ℕ) → outside k i j ≡ true → k'.cell_fg i j ≡ k.cell_fg i j

pub same-Within : (k k' : Console) → SameBounds k k' → InGrid k → Within k k'
same-Within k k' s g = record {
  in_grid = record {
    rows = omega (arith, s.rows, g.rows);
    cols = omega (arith, s.cols, g.cols);
    some_row = omega (arith, s.rows, g.some_row);
    some_col = omega (arith, s.cols, g.some_col);
    row_in = omega (arith, s.rows, s.row, g.row_in);
    col_in = omega (arith, s.cols, s.col, g.col_in);
  };
  rows = s.rows;
  cols = s.cols;
  ch = λ i j o. s.ch i j;
  fg = λ i j o. s.fg i j;
}

pub Within-trans : (a b c : Console) → Within a b → Within b c → Within a c
Within-trans a b c s t = record {
  in_grid = t.in_grid;
  rows = t.rows ∙ s.rows;
  cols = t.cols ∙ s.cols;
  ch = λ i j o. t.ch i j (rw (s.rows, s.cols) o) ∙ s.ch i j o;
  fg = λ i j o. t.fg i j (rw (s.rows, s.cols) o) ∙ s.fg i j o;
}
