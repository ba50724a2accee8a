-- ===== src/Console/Tests.antt =====
-- A console of two rows and three columns.
use gravityos.Base.{arith, false, []}
use gravityos.Console.{Console, fbcon_init, fbcon_putchar}
use gravityos.Console.Bounds.{InGrid, Within}
use gravityos.Console.Putchar.{putchar-Within, init-InGrid}

abbrev powered_on : Console
powered_on = record {
  con_x = 0;
  con_y = 0;
  con_cols = 0;
  con_rows = 0;
  con_bg = 0;
  con_fg = 0xA0A0A0;
  cur_col = 0;
  cur_row = 0;
  con_ready = false;
  cursor_shown = false;
  cursor_col = 0;
  cursor_row = 0;
  cell_ch = λ r c. 0;
  cell_fg = λ r c. 0;
  drawn = [];
}

abbrev small_console : Console
small_console = fbcon_init powered_on 4 4 24 20 0

small_console-InGrid : InGrid small_console
small_console-InGrid = init-InGrid powered_on 4 4 24 20 0 (omega arith) (omega arith)

putchar-Within_example : Within small_console (fbcon_putchar small_console b'a')
putchar-Within_example = putchar-Within small_console b'a' small_console-InGrid
