-- ===== src/Console/Line.antt =====
-- kernel.c: the line editor, `input_start` and `read_line`. It takes scancodes from the keyboard
-- buffer, edits `input_buffer` and redraws the row of the screen. The two loops that draw pixels move
-- the cursor only to put it back, and are left out with the pixels.
pub mod Bounds
pub mod Text
pub mod Overrun
pub mod Typing
use calculatoros.Prelude.{
  ℕ, suc, ◌+◌, ◌-◌, Bool, true, false, not, ◌&&◌, ◌||◌, List, [], ◌∷◌, ◌++◌, ◌==◌, ltb, leb,
  if◌then◌else◌, get_or,
}
use calculatoros.CString.{ascii}
use calculatoros.Memory.{Mem, store}
use calculatoros.Keyboard.{Keys, has_key, get_key, flush_keys}
use calculatoros.Console.{cols, Screen, cell, print_char}

-- `scancode_table`; the bytes behind those given are 0.
abbrev pub scancode_table : List ℕ
scancode_table =
    0
    ∷ 27
    ∷ (ascii "1234567890-="
        ++ (8
            ∷ 9
            ∷ (ascii "qwertyuiop[]"
                ++ (10
                    ∷ 0
                    ∷ (ascii "asdfghjkl;'`"
                        ++ (0 ∷ (ascii "\\zxcvbnm,./" ++ (0 ∷ b'*' ∷ 0 ∷ b' ' ∷ []))))))))

-- The static variables of the line, `shift`, `caps` and `cursor_visible`.
pub record Line : Type 0 where
  pub input_buffer : Mem
  pub input_len : ℕ
  pub input_pos : ℕ
  pub input_active : Bool
  pub start_x : ℕ
  pub start_y : ℕ
  pub shift : Bool
  pub caps : Bool
  pub cursor_visible : Bool

pub record Console : Type 0 where
  pub screen : Screen
  pub keys : Keys
  pub line : Line

-- The `switch` on characters with shift.
unfoldable pub shift_in : List ℕ → List ℕ → ℕ → ℕ
shift_in (k ∷ plain) (v ∷ shifted) c =
    let rest = shift_in plain shifted c in if c == k then v else rest
shift_in _ _ c = c

unfoldable pub with_shift : Bool → ℕ → ℕ
unfolding shift_in
with_shift caps c =
    if not caps && leb b'a' c && leb c b'z'
    then c - 32
    else shift_in (ascii "1234567890-=[];',./\\`") (ascii "!@#$%^&*()_+{}:\"<>?|~") c

unfoldable pub key_char : Line → ℕ → ℕ
key_char l c = if l.shift then with_shift l.caps c else c

unfoldable pub input_start : Console → Console
input_start s = record {
  screen = s.screen;
  keys = flush_keys s.keys;
  line = record s.line {
    input_len = 0;
    input_pos = 0;
    input_active = true;
    start_x = s.screen.cursor_x;
    start_y = s.screen.cursor_y;
    cursor_visible = false;
  };
}

-- The row of the line, written from the buffer and filled with spaces to 80 characters.
unfoldable pub redraw : Line → Mem → Mem
redraw l m a =
    let start = cell l.start_x l.start_y in
    if leb start a && ltb a (start + l.input_len)
    then l.input_buffer (a - start)
    else if leb start a && ltb a (start + cols)
    then b' '
    else m a

unfoldable pub place_cursor : Console → Console
place_cursor s = record s {
  screen = record s.screen {
    cursor_x = s.line.start_x + s.line.input_pos;
    cursor_y = s.line.start_y;
  };
  line = record s.line { cursor_visible = true };
}

unfoldable pub refreshed : Console → Console
unfolding redraw place_cursor
refreshed s =
    place_cursor (record s {
      screen = record s.screen { screen_buffer = redraw s.line s.screen.screen_buffer };
    })

-- The two loops that move the characters behind the cursor.
abbrev pub inserted : ℕ → ℕ → ℕ → Mem → Mem
inserted pos len c m j = if ltb pos j && leb j len then m (j - 1) else if j == pos then c else m j

abbrev pub erased : ℕ → ℕ → Mem → Mem
erased pos len m j = if leb (pos - 1) j && ltb j (len - 1) then m (j + 1) else m j

unfoldable pub on_insert : ℕ → Line → Line
on_insert c l = record l {
  input_buffer = inserted l.input_pos l.input_len c l.input_buffer;
  input_len = l.input_len + 1;
  input_pos = l.input_pos + 1;
}

unfoldable pub on_erase : Line → Line
on_erase l = record l {
  input_buffer = erased l.input_pos l.input_len l.input_buffer;
  input_len = l.input_len - 1;
  input_pos = l.input_pos - 1;
}

-- What is copied to the caller's buffer.
abbrev pub copied : ℕ → Line → Mem → Mem
copied max_len l buffer i =
    if i == l.input_len
    then 0
    else if ltb i l.input_len && ltb i (max_len - 1)
    then l.input_buffer i
    else buffer i

unfoldable pub on_char : ℕ → Mem → ℕ → Console → Bool × Mem × Console
on_char max_len buffer c s =
    if c == 10
    then (
      true,
      copied max_len s.line buffer,
      record s {
        screen = print_char 10 s.screen;
        line = record s.line { input_active = false; cursor_visible = true };
      },
    )
    else if c == 8
    then (
      false,
      buffer,
      if ltb 0 s.line.input_pos then refreshed (record s { line = on_erase s.line }) else s,
    )
    else (
      false,
      buffer,
      if ltb s.line.input_len (max_len - 1)
          then refreshed (record s { line = on_insert c s.line })
          else s,
    )

-- The scancode that follows 0xE0: the cursor keys.
unfoldable pub on_extended : Console → Console
on_extended s =
    if not (has_key s.keys)
    then s
    else (let (sc2, keys) = get_key s.keys in
        let s = record s { keys = keys } in
        if leb 128 sc2
        then s
        else if sc2 == 75 && ltb 0 s.line.input_pos
        then place_cursor (record s { line = record s.line { input_pos = s.line.input_pos - 1 } })
        else if sc2 == 77 && ltb s.line.input_pos s.line.input_len
        then place_cursor (record s { line = record s.line { input_pos = s.line.input_pos + 1 } })
        else s)

unfoldable pub on_scancode : ℕ → Mem → ℕ → Console → Bool × Mem × Console
on_scancode max_len buffer scancode s =
    if scancode == 224
    then (false, buffer, on_extended s)
    else if scancode == 42 || scancode == 54
    then (false, buffer, record s { line = record s.line { shift = true } })
    else if scancode == 170 || scancode == 182
    then (false, buffer, record s { line = record s.line { shift = false } })
    else if scancode == 58
    then (false, buffer, record s { line = record s.line { caps = not s.line.caps } })
    else if leb 128 scancode || get_or scancode_table scancode 0 == 0
    then (false, buffer, s)
    else on_char max_len buffer (key_char s.line (get_or scancode_table scancode 0)) s

unfoldable pub started : Console → Console
started s = if s.line.input_active then s else input_start s

-- `read_line` behind the start of the line.
unfoldable pub on_keys : ℕ → Mem → Console → Bool × Mem × Console
on_keys max_len buffer s =
    if not (has_key s.keys)
    then (false, buffer, s)
    else (let (scancode, keys) = get_key s.keys in
        on_scancode max_len buffer scancode (record s { keys = keys }))

-- The result, the caller's buffer and the state. A result `false` means that the line goes on.
unfoldable pub read_line : ℕ → Mem → Console → Bool × Mem × Console
read_line max_len buffer s = on_keys max_len buffer (started s)
