-- ===== src/Console.antt =====
-- drivers/fbcon.c: the text console. The static variables are the fields of `Console`; the cells'
-- characters and colours are arrays by row and column. What is drawn is the list of the calls of
-- fb_draw_rect and font_draw_char, the newest first. A character is its byte: those above 126 are
-- skipped like those below 32, whether char is signed or not. The loops that store to both arrays in
-- turn are one loop for each array.
pub mod Scroll
pub mod Bounds
pub mod Putchar
mod Tests
use gravityos.Base.{
  ℕ, zero, suc, ◌+◌, ◌-◌, ◌*◌, ◌/◌, ◌%◌, ◌^◌, Bool, true, false, not, ◌&&◌, ◌||◌, List, [], ◌∷◌,
  ltb, leb, ◌==◌, if◌then◌else◌, min,
}

-- FBCON_MAX_COLS and FBCON_MAX_ROWS, FBCON_CELL_W and FBCON_CELL_H.
abbrev pub max_cols : ℕ
max_cols = 160

abbrev pub max_rows : ℕ
max_rows = 96

abbrev pub cell_width : ℕ
cell_width = 8

abbrev pub cell_height : ℕ
cell_height = 10

-- uint32_t, and `n - 1` on it.
abbrev pub word : ℕ
word = 2 ^ 32

abbrev pub before : ℕ → ℕ
before n = (n + word - 1) % word

abbrev pub grey : ℕ
grey = 0xA0A0A0

pub data Draw : Type 0 where
  rect : (x y width height color : ℕ) → Draw
  char : (x y c fg bg : ℕ) → Draw

abbrev pub Grid : Type 0
Grid = ℕ → ℕ → ℕ

pub record Console : Type 0 where
  pub con_x : ℕ
  pub con_y : ℕ
  pub con_cols : ℕ
  pub con_rows : ℕ
  pub con_bg : ℕ
  pub con_fg : ℕ
  pub cur_col : ℕ
  pub cur_row : ℕ
  pub con_ready : Bool
  pub cursor_shown : Bool
  pub cursor_col : ℕ
  pub cursor_row : ℕ
  pub cell_ch : Grid
  pub cell_fg : Grid
  pub drawn : List Draw

-- `g[r][c] = v`.
abbrev pub put_cell : Grid → ℕ → ℕ → ℕ → Grid
put_cell g r c v i j = if (i == r) && (j == c) then v else g i j

pub draw_cell : Console → ℕ → ℕ → Console
draw_cell k row col =
    let px = (k.con_x + col * cell_width) % word in
    let py = (k.con_y + row * cell_height) % word in
    let c = k.cell_ch row col in
    let cleared = rect px py cell_width cell_height k.con_bg ∷ k.drawn in
    record k {
      drawn =
          if not (c == 0) && not (c == b' ')
          then char px py c (k.cell_fg row col) k.con_bg ∷ cleared
          else cleared;
    }

-- The loops of redraw_all, by the cells and the rows that are left.
pub redraw_row : ℕ → ℕ → ℕ → Console → Console
redraw_row zero r c k = k
redraw_row (suc n) r c k = redraw_row n r (c + 1) (draw_cell k r c)

pub redraw_rows : ℕ → ℕ → Console → Console
redraw_rows zero r k = k
redraw_rows (suc n) r k = redraw_rows n (r + 1) (redraw_row k.con_cols r 0 k)

pub redraw_all : Console → Console
redraw_all k = redraw_rows k.con_rows 0 k

-- Store `v` in `n` cells of row `r` from column `c` on.
pub fill_row : ℕ → ℕ → ℕ → ℕ → Grid → Grid
fill_row v zero r c g = g
fill_row v (suc n) r c g = fill_row v n r (c + 1) (put_cell g r c v)

pub fill_rows : ℕ → ℕ → ℕ → ℕ → Grid → Grid
fill_rows v cols zero r g = g
fill_rows v cols (suc n) r g = fill_rows v cols n (r + 1) (fill_row v cols r 0 g)

-- Copy `n` cells of the row below into row `r`.
pub copy_row : ℕ → ℕ → ℕ → Grid → Grid
copy_row zero r c g = g
copy_row (suc n) r c g = copy_row n r (c + 1) (put_cell g r c (g (r + 1) c))

pub copy_rows : ℕ → ℕ → ℕ → Grid → Grid
copy_rows cols zero r g = g
copy_rows cols (suc n) r g = copy_rows cols n (r + 1) (copy_row cols r 0 g)

pub fbcon_clear : Console → Console
fbcon_clear k =
    if k.con_ready
    then record k {
      cell_ch = fill_rows b' ' k.con_cols k.con_rows 0 k.cell_ch;
      cell_fg = fill_rows k.con_fg k.con_cols k.con_rows 0 k.cell_fg;
      cur_col = 0;
      cur_row = 0;
      cursor_shown = false;
      drawn =
          rect k.con_x k.con_y (k.con_cols * cell_width % word) (k.con_rows * cell_height % word)
            k.con_bg
          ∷ k.drawn;
    }
    else k

pub fbcon_init : Console → ℕ → ℕ → ℕ → ℕ → ℕ → Console
fbcon_init k x y w h bg = fbcon_clear (record k {
  con_x = x;
  con_y = y;
  con_bg = bg;
  con_cols = if ltb max_cols (w / cell_width) then max_cols else w / cell_width;
  con_rows = if ltb max_rows (h / cell_height) then max_rows else h / cell_height;
  con_ready = true;
})

-- Every row takes the one below it, and the last one is blank.
pub scroll_grid : ℕ → ℕ → ℕ → Grid → Grid
scroll_grid blank cols rows g = fill_row blank cols (before rows) 0 (copy_rows cols (rows - 1) 0 g)

pub scroll_up : Console → Console
scroll_up k = redraw_all (record k {
  cell_ch = scroll_grid b' ' k.con_cols k.con_rows k.cell_ch;
  cell_fg = scroll_grid k.con_fg k.con_cols k.con_rows k.cell_fg;
  cur_row = before k.con_rows;
  cursor_shown = false;
})

pub newline : Console → Console
newline k =
    if ltb (k.cur_row + 1) k.con_rows
    then record k { cur_col = 0; cur_row = k.cur_row + 1 }
    else scroll_up (record k { cur_col = 0 })

pub cursor_hide : Console → Console
cursor_hide k =
    if k.cursor_shown
    then (if ltb k.cursor_row k.con_rows && ltb k.cursor_col k.con_cols
        then draw_cell (record k { cursor_shown = false }) k.cursor_row k.cursor_col
        else record k { cursor_shown = false })
    else k

pub fbcon_cursor_blink : Console → Console
fbcon_cursor_blink k =
    if not k.con_ready
    then k
    else if k.cursor_shown
    then cursor_hide k
    else if leb k.con_rows k.cur_row || leb k.con_cols k.cur_col
    then record k { cursor_row = k.cur_row; cursor_col = k.cur_col }
    else record k {
      cursor_row = k.cur_row;
      cursor_col = k.cur_col;
      cursor_shown = true;
      drawn =
          rect ((k.con_x + k.cur_col * cell_width) % word)
            ((k.con_y + k.cur_row * cell_height) % word) cell_width (cell_height - 1) grey
          ∷ k.drawn;
    }

-- One step back, to the end of the row above from the first column.
pub step_back : Console → Console
step_back k =
    if ltb 0 k.cur_col
    then record k { cur_col = k.cur_col - 1 }
    else if ltb 0 k.cur_row
    then record k { cur_row = k.cur_row - 1; cur_col = before k.con_cols }
    else k

pub erase : Console → Console
erase k =
    draw_cell (record k { cell_ch = put_cell k.cell_ch k.cur_row k.cur_col b' ' }) k.cur_row
      k.cur_col

pub put_here : Console → ℕ → Console
put_here k c =
    let shown =
      draw_cell
        (record k {
          cell_ch = put_cell k.cell_ch k.cur_row k.cur_col c;
          cell_fg = put_cell k.cell_fg k.cur_row k.cur_col k.con_fg;
        })
        k.cur_row k.cur_col in
    record shown { cur_col = k.cur_col + 1 }

-- A character other than a tab, once the cursor is hidden.
pub put_char : Console → ℕ → Console
put_char k c =
    if c == 10
    then newline k
    else if c == 13
    then record k { cur_col = 0 }
    else if c == 8
    then erase (step_back k)
    else if ltb c 32 || ltb 126 c
    then k
    else put_here (if leb k.con_cols k.cur_col then newline k else k) c

pub put_space : Console → Console
put_space k = put_char (cursor_hide k) b' '

pub fbcon_putchar : Console → ℕ → Console
fbcon_putchar k c =
    if not k.con_ready
    then k
    else if c == 9
    then put_space (put_space (put_space (put_space (cursor_hide k))))
    else put_char (cursor_hide k) c
