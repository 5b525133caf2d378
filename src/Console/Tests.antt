-- ===== src/Console/Tests.antt =====
-- Runs of the console.
use calculatoros.Prelude.{◌≡◌, refl, true, false, [], ◌∷◌, arith, replicate}
use calculatoros.CString.{ascii}
use calculatoros.Keyboard.{Keys}
use calculatoros.Console.{Screen, clear, print}
use calculatoros.Console.Page.{empty_page, type_chars}
use calculatoros.Console.Print.{Shown, print-clear, print_frame}
use calculatoros.Console.Line.{Line, Console, on_char, read_line, with_shift}
use calculatoros.Console.Line.Bounds.{IsLine, Keeps, read_line-Keeps}
use calculatoros.Console.Line.Text.{edited, type_key, on_char-type_key}
use calculatoros.Console.Line.Typing.{IsPlain, Typing, Returned, await_line, await_line-Returned}

abbrev dots : Screen
dots = record { screen_buffer = λ a. b'.'; cursor_x = 3; cursor_y = 24 }

print-clear_example :
    Shown (type_chars (ascii "on\noff") empty_page) (print (ascii "on\noff") (clear dots))
print-clear_example = print-clear (ascii "on\noff") dots

print_frame_example : (print (ascii "scroll\n") dots).screen_buffer 2000 ≡ b'.'
print_frame_example = print_frame (ascii "scroll\n") dots 2000 (omega arith)

-- The keys h, i and Enter.
abbrev keys : Keys
keys = record { keybuf = 35 ∷ 23 ∷ 28 ∷ replicate 253 0; key_head = 3; key_tail = 0 }

abbrev empty_line : Line
empty_line = record {
  input_buffer = λ i. 0;
  input_len = 0;
  input_pos = 0;
  input_active = true;
  start_x = 3;
  start_y = 24;
  shift = false;
  caps = false;
  cursor_visible = true;
}

abbrev waiting : Console
waiting = record { screen = dots; keys = keys; line = empty_line }

empty_line-IsLine : IsLine 256 empty_line
empty_line-IsLine = record { within = omega arith; fits = omega arith }

read_line-Keeps_example : Keeps 256 (λ i. 7) waiting (read_line 256 (λ i. 7) waiting)
read_line-Keeps_example = read_line-Keeps 256 (omega arith) (λ i. 7) waiting empty_line-IsLine

on_char-type_key_example :
    edited ((on_char 256 (λ i. 7) b'x' waiting).2).line ≡ type_key 256 b'x' (edited empty_line)
on_char-type_key_example =
    on_char-type_key 256 (λ i. 7) b'x' waiting empty_line-IsLine (omega arith)

h_key : IsPlain 35
h_key = record { pressed = omega arith; no_modifier = refl; visible = refl }

i_key : IsPlain 23
i_key = record { pressed = omega arith; no_modifier = refl; visible = refl }

waiting-Typing : Typing 256 [] (35 ∷ 23 ∷ 28 ∷ []) waiting
waiting-Typing = record {
  active = refl;
  no_shift = refl;
  is_line = empty_line-IsLine;
  valid = omega arith;
  waiting = refl;
  typed = refl;
}

await_line-Returned_example : Returned (ascii "hi") [] (await_line 3 256 (λ i. 7) waiting)
await_line-Returned_example =
    await_line-Returned 256 (omega arith) (35 ∷ 23 ∷ []) (λ i. 7) [] [] waiting (h_key, (i_key, tt))
      (omega arith) waiting-Typing

-- Caps lock alone changes no letter: with shift it takes the capitals away.
caps_lock : with_shift true b'a' ≡ b'a'
unfolding with_shift
caps_lock = refl
