-- ===== src/Console/Line/Bounds.antt =====
-- The editor stays within its buffers.
use calculatoros.Prelude.{ℕ, ◌-◌, ◌≤◌, ◌<◌, ◌≡◌, ◌∙◌, Bool, arith, get_or}
use calculatoros.Memory.{Mem}
use calculatoros.Keyboard.{get_key}
use calculatoros.Console.Line.{
  Line, Console, input_start, refreshed, place_cursor, on_insert, on_erase, on_char, on_extended,
  on_scancode, started, on_keys, read_line, scancode_table, key_char,
}

-- The cursor is within the text, and the text and its NUL fit `max_len` bytes.
pub record IsLine (max_len : ℕ) (l : Line) : Type 0 where
  pub within : l.input_pos ≤ l.input_len
  pub fits : l.input_len ≤ max_len - 1

-- What a call keeps: the editor within its bounds, and what is behind the first `max_len` bytes of
-- the caller's buffer and of its own.
pub record Keeps (max_len : ℕ) (buffer : Mem) (s : Console) (r : Bool × Mem × Console)
    : Type 0 where
  pub is_line : IsLine max_len (r.2).line
  pub frame : (i : ℕ) → max_len ≤ i → (r.1) i ≡ buffer i
  pub own : (i : ℕ) → max_len ≤ i → (r.2).line.input_buffer i ≡ s.line.input_buffer i

on_extended_own :
    (s : Console) (i : ℕ) → (on_extended s).line.input_buffer i ≡ s.line.input_buffer i
unfolding on_extended place_cursor
on_extended_own s i = ground arith

started_own : (s : Console) (i : ℕ) → (started s).line.input_buffer i ≡ s.line.input_buffer i
unfolding started input_start
started_own s i = ground arith

module _ (max_len : ℕ) where
  abbrev pub IsEdited : Console → Type 0
  IsEdited s = IsLine max_len s.line

  input_start-IsLine : (s : Console) → IsEdited (input_start s)
  unfolding input_start
  input_start-IsLine s = record { within = omega arith; fits = omega arith }

  on_extended-IsLine : (s : Console) → IsEdited s → IsEdited (on_extended s)
  unfolding on_extended place_cursor
  on_extended-IsLine s h = ground arith

  module _ (some_room : 0 < max_len) where
    pub on_char-Keeps :
        (buffer : Mem) (c : ℕ) (s : Console)
        → IsEdited s
        → Keeps max_len buffer s (on_char max_len buffer c s)
    unfolding on_char refreshed place_cursor on_insert on_erase
    on_char-Keeps buffer c s h = record {
      is_line = ground arith;
      frame = λ i l. ground arith;
      own = λ i l. ground arith;
    }

    on_scancode-Keeps :
        (buffer : Mem) (scancode : ℕ) (s : Console)
        → IsEdited s
        → Keeps max_len buffer s (on_scancode max_len buffer scancode s)
    unfolding on_scancode
    on_scancode-Keeps buffer scancode s h =
        let c = key_char s.line (get_or scancode_table scancode 0) in
        let k = on_char-Keeps buffer c s h in
        record {
          is_line = ground (arith, on_extended-IsLine s);
          frame = λ i l. ground (arith, k.frame i);
          own = λ i l. ground (arith, on_extended_own s i, k.own i);
        }

    on_keys-Keeps :
        (buffer : Mem) (s : Console)
        → IsEdited s
        → Keeps max_len buffer s (on_keys max_len buffer s)
    unfolding on_keys
    on_keys-Keeps buffer s h =
        let (scancode, keys) = get_key s.keys in
        let k = on_scancode-Keeps buffer scancode (record s { keys = keys }) h in
        record {
          is_line = ground arith;
          frame = λ i l. ground (arith, k.frame i);
          own = λ i l. ground (arith, k.own i);
        }

    started-IsLine : (s : Console) → IsEdited s → IsEdited (started s)
    unfolding started
    started-IsLine s h = ground (arith, input_start-IsLine s)

    -- With a cursor within a text that fits `max_len` bytes, a call of `read_line` with that bound
    -- keeps both, whatever the keyboard buffer holds, and writes no byte of the caller's buffer or of
    -- its own behind the first `max_len`.
    pub read_line-Keeps :
        (buffer : Mem) (s : Console)
        → IsEdited s
        → Keeps max_len buffer s (read_line max_len buffer s)
    unfolding read_line
    read_line-Keeps buffer s h =
        let k = on_keys-Keeps buffer (started s) (started-IsLine s h) in
        record { is_line = k.is_line; frame = k.frame; own = λ i l. k.own i l ∙ started_own s i }
