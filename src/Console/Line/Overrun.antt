-- ===== src/Console/Line/Overrun.antt =====
-- The redrawing of a line that does not start in the first column.
use calculatoros.Prelude.{ℕ, ◌+◌, ◌-◌, ◌*◌, ◌≤◌, ◌<◌, ◌≡◌, ◌≢◌, arith}
use calculatoros.Memory.{Mem}
use calculatoros.Console.{rows, cols}
use calculatoros.Console.Line.{Line, Console, redraw, refreshed, place_cursor, on_insert, on_char}

redraw_overruns :
    (l : Line) (m : Mem) (a : ℕ)
    → l.start_y ≡ rows - 1
    → l.start_x + l.input_len ≤ cols
    → rows * cols ≤ a
    → a < rows * cols + l.start_x
    → redraw l m a ≡ b' '
unfolding redraw
redraw_overruns l m a y x h k = ground arith

-- On the last row of the screen, a character that is typed into a line that starts at column
-- `start_x` and stays within the row overwrites the `start_x` bytes behind the screen by spaces.
pub on_char_overruns :
    (max_len : ℕ) (buffer : Mem) (c : ℕ) (s : Console) (a : ℕ)
    → c ≢ 10
    → c ≢ 8
    → s.line.input_len < max_len - 1
    → s.line.start_y ≡ rows - 1
    → s.line.start_x + s.line.input_len < cols
    → rows * cols ≤ a
    → a < rows * cols + s.line.start_x
    → ((on_char max_len buffer c s).2).screen.screen_buffer a ≡ b' '
unfolding on_char refreshed place_cursor on_insert
on_char_overruns max_len buffer c s a n b room y x h k =
    ground (arith, redraw_overruns (on_insert c s.line) s.screen.screen_buffer a)
