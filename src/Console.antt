-- ===== src/Console.antt =====
-- kernel.c: the text console, `print_char`, `vesa_scroll` and `clear` on the characters of the
-- screen. The pixels that are drawn along with them are not part of the state.
pub mod Page
pub mod Print
pub mod Line
mod Tests
use calculatoros.Prelude.{ℕ, suc, ◌+◌, ◌-◌, ◌*◌, ◌&&◌, List, [], ◌∷◌, ◌==◌, ltb, leb, if◌then◌else◌}
use calculatoros.Memory.{Mem, store}

abbrev pub rows : ℕ
rows = 25

abbrev pub cols : ℕ
cols = 80

-- `screen_buffer`, whose cell of row `y` and column `x` is at `y * 80 + x`, and the cursor.
pub record Screen : Type 0 where
  pub screen_buffer : Mem
  pub cursor_x : ℕ
  pub cursor_y : ℕ

abbrev pub cell : ℕ → ℕ → ℕ
cell x y = y * cols + x

unfoldable pub screen_buffer_set : ℕ → ℕ → ℕ → Mem → Mem
screen_buffer_set x y c m = if ltb x cols && ltb y rows then store m (cell x y) c else m

unfoldable pub screen_buffer_get : ℕ → ℕ → Mem → ℕ
screen_buffer_get x y m = if ltb x cols && ltb y rows then m (cell x y) else b' '

-- The two loops over the cells.
unfoldable pub vesa_scroll : Mem → Mem
vesa_scroll m a =
    if ltb a ((rows - 1) * cols) then m (a + cols) else if ltb a (rows * cols) then b' ' else m a

-- `init_screen_buffer`, and the loop of `clear`.
unfoldable pub blank : Mem → Mem
blank m a = if ltb a (rows * cols) then b' ' else m a

unfoldable pub clear : Screen → Screen
unfolding blank
clear s = record { screen_buffer = blank s.screen_buffer; cursor_x = 0; cursor_y = 0 }

unfoldable pub new_line : Screen → Screen
new_line s =
    let y = s.cursor_y + 1 in
    if leb rows y
    then record { screen_buffer = vesa_scroll s.screen_buffer; cursor_x = 0; cursor_y = rows - 1 }
    else record s { cursor_x = 0; cursor_y = y }

unfoldable pub back_space : Screen → Screen
back_space s =
    if ltb 0 s.cursor_x
    then record s {
      screen_buffer = screen_buffer_set (s.cursor_x - 1) s.cursor_y b' ' s.screen_buffer;
      cursor_x = s.cursor_x - 1;
    }
    else s

unfoldable pub put_char : ℕ → Screen → Screen
put_char c s =
    let m = screen_buffer_set s.cursor_x s.cursor_y c s.screen_buffer in
    let x = s.cursor_x + 1 in
    if leb cols x
    then new_line (record s { screen_buffer = m })
    else record s { screen_buffer = m; cursor_x = x }

unfoldable pub print_char : ℕ → Screen → Screen
print_char c s =
    if c == 10
    then new_line s
    else if c == 13
    then record s { cursor_x = 0 }
    else if c == 8
    then back_space s
    else put_char c s

unfoldable pub print : List ℕ → Screen → Screen
print [] s = s
print (c ∷ text) s = print text (print_char c s)
