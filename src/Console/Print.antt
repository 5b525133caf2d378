-- ===== src/Console/Print.antt =====
-- Printing on the screen does what printing on the page does, and touches no other memory.
use calculatoros.Prelude.{
  ℕ, ◌+◌, ◌-◌, ◌*◌, ◌≤◌, ◌≡◌, ◌∙◌, refl, true, false, List, [], ◌∷◌, ◌==◌, ltb, leb, arith,
  Bool-cases, inl, inr, if◌then◌else◌,
}
use calculatoros.Console.{
  rows, cols, Screen, screen_buffer_set, vesa_scroll, blank, clear, new_line, back_space, put_char,
  print_char, print,
}
use calculatoros.Console.Page.{
  Page, empty_page, next_row, write_at, type_char, type_chars, Shows, write-Shows, move-Shows,
  new_line-Shows, new_top,
}

-- The screen shows some rows of the page.
abbrev pub Shown : Page → Screen → Type 0
Shown p s = (top : ℕ) × Shows p s top

back_space-Shown :
    (p : Page) (s : Screen)
    → Shown p s
    → Shown
        (if ltb 0 p.column
          then record p { text = write_at p.row (p.column - 1) b' ' p.text; column = p.column - 1 }
          else p)
        (back_space s)
unfolding back_space
back_space-Shown p s (top, h) = elim (Bool-cases (ltb 0 s.cursor_x)) [
  | inl in_row ↦
      rw (h.column_at, in_row)
        (
          top,
          move-Shows (s.cursor_x - 1)
              (write-Shows (s.cursor_x - 1) b' ' h (omega (arith, h.column_at)))
              (omega (arith, h.inside_x)),
        )
  | inr start ↦
      let e : ltb 0 p.column ≡ false = ground (arith, h.column_at) in rw (e, start) (top, h)
]

put_char-Shown :
    (c : ℕ) (p : Page) (s : Screen)
    → Shown p s
    → Shown
        (let written = record p { text = write_at p.row p.column c p.text } in
          if p.column + 1 == cols
          then next_row written
          else record written { column = p.column + 1 })
        (put_char c s)
unfolding put_char
put_char-Shown c p s (top, h) = elim (Bool-cases (s.cursor_x + 1 == cols)) [
  | inl full ↦
      let full' : leb cols (s.cursor_x + 1) ≡ true = ground arith in
      rw (h.column_at, full, full')
        (new_top s top, new_line-Shows (write-Shows s.cursor_x c h (omega (arith, h.column_at))))
  | inr room ↦
      let room' : leb cols (s.cursor_x + 1) ≡ false = ground (arith, h.inside_x) in
      rw (h.column_at, room, room')
        (
          top,
          move-Shows (s.cursor_x + 1) (write-Shows s.cursor_x c h (omega (arith, h.column_at)))
              (ground (arith, h.inside_x)),
        )
]

print_char-Shown :
    (c : ℕ) (p : Page) (s : Screen) → Shown p s → Shown (type_char c p) (print_char c s)
unfolding type_char print_char
print_char-Shown c p s (top, h) = elim (Bool-cases (c == 10)) [
  | inl line ↦ rw line (new_top s top, new_line-Shows h)
  | inr other ↦ elim (Bool-cases (c == 13)) [
    | inl return ↦ rw (other, return) (top, move-Shows 0 h (omega arith))
    | inr other' ↦ elim (Bool-cases (c == 8)) [
      | inl back ↦ rw (other, other', back) (back_space-Shown p s (top, h))
      | inr visible ↦ rw (other, other', visible) (put_char-Shown c p s (top, h))
    ]
  ]
]

pub print-Shown :
    (text : List ℕ) (p : Page) (s : Screen) → Shown p s → Shown (type_chars text p) (print text s)
unfolding type_chars print
print-Shown [] p s h = h
print-Shown (c ∷ text) p s h =
    print-Shown text (type_char c p) (print_char c s) (print_char-Shown c p s h)

clear-Shows : (s : Screen) → Shows empty_page (clear s) 0
unfolding clear blank
clear-Shows s = record {
  row_at = refl;
  column_at = refl;
  inside_x = omega arith;
  inside_y = omega arith;
  cells = λ x y h k. ground arith;
  empty_below = λ r x h. refl;
}

-- After `clear`, whatever is printed, the screen shows 25 rows of the page that results from typing
-- the same characters on an unbounded page, the cursor stands at the same place of it and within the
-- screen, and the page is empty below the cursor.
pub print-clear :
    (text : List ℕ) (s : Screen) → Shown (type_chars text empty_page) (print text (clear s))
print-clear text s = print-Shown text empty_page (clear s) (0, clear-Shows s)

print_char_frame :
    (c : ℕ) (s : Screen) (a : ℕ)
    → rows * cols ≤ a
    → (print_char c s).screen_buffer a ≡ s.screen_buffer a
unfolding print_char new_line back_space put_char vesa_scroll screen_buffer_set
print_char_frame c s a h = ground arith

-- Wherever the cursor stands, printing changes no memory behind the 25 rows of the screen.
pub print_frame :
    (text : List ℕ) (s : Screen) (a : ℕ)
    → rows * cols ≤ a
    → (print text s).screen_buffer a ≡ s.screen_buffer a
unfolding print
print_frame [] s a h = refl
print_frame (c ∷ text) s a h = print_frame text (print_char c s) a h ∙ print_char_frame c s a h
