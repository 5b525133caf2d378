-- ===== src/Console/Page.antt =====
-- The screen shows the last rows of an unbounded page.
use calculatoros.Prelude.{
  ℕ, ◌+◌, ◌-◌, ◌*◌, ◌<◌, ◌≤◌, ◌≡◌, inl, inr, refl, true, false, ◌&&◌, List, [], ◌∷◌, ◌==◌, ltb, leb,
  ltb→lt, leb→le, arith, Bool-cases, if◌then◌else◌,
}
use calculatoros.Memory.{Mem}
use calculatoros.Console.{rows, cols, Screen, cell, screen_buffer_set, vesa_scroll, new_line}

-- A page as wide as the screen that never scrolls.
pub record Page : Type 0 where
  pub text : ℕ → ℕ → ℕ
  pub column : ℕ
  pub row : ℕ

abbrev pub empty_page : Page
empty_page = record { text = λ r x. b' '; column = 0; row = 0 }

abbrev pub write_at : ℕ → ℕ → ℕ → (ℕ → ℕ → ℕ) → ℕ → ℕ → ℕ
write_at r x c text r' x' = if r == r' && x == x' then c else text r' x'

abbrev pub next_row : Page → Page
next_row p = record p { column = 0; row = p.row + 1 }

unfoldable pub type_char : ℕ → Page → Page
type_char c p =
    if c == 10
    then next_row p
    else if c == 13
    then record p { column = 0 }
    else if c == 8
    then (if ltb 0 p.column
        then record p { text = write_at p.row (p.column - 1) b' ' p.text; column = p.column - 1 }
        else p)
    else (let written = record p { text = write_at p.row p.column c p.text } in
        if p.column + 1 == cols then next_row written else record written { column = p.column + 1 })

unfoldable pub type_chars : List ℕ → Page → Page
type_chars [] p = p
type_chars (c ∷ text) p = type_chars text (type_char c p)

-- `top` is the row of the page that the screen starts with; below the cursor the page is empty.
pub record Shows (p : Page) (s : Screen) (top : ℕ) : Type 0 where
  pub row_at : p.row ≡ top + s.cursor_y
  pub column_at : p.column ≡ s.cursor_x
  pub inside_x : s.cursor_x < cols
  pub inside_y : s.cursor_y < rows
  pub cells : (x y : ℕ) → x < cols → y < rows → s.screen_buffer (cell x y) ≡ p.text (top + y) x
  pub empty_below : (r x : ℕ) → p.row < r → p.text r x ≡ b' '

set_cell :
    (x y c : ℕ) (m : Mem) (x' y' : ℕ)
    → x < cols
    → y < rows
    → x' < cols
    → screen_buffer_set x y c m (cell x' y') ≡ (if y == y' && x == x' then c else m (cell x' y'))
unfolding screen_buffer_set
set_cell x y c m x' y' h k h' = ground arith

pub write-Shows :
    (x c : ℕ) {p : Page} {s : Screen} {top : ℕ}
    → Shows p s top
    → x ≤ p.column
    → Shows
        (record p { text = write_at p.row x c p.text })
        (record s { screen_buffer = screen_buffer_set x s.cursor_y c s.screen_buffer })
        top
write-Shows x c {p} {s} {top} h l = record {
  row_at = h.row_at;
  column_at = h.column_at;
  inside_x = h.inside_x;
  inside_y = h.inside_y;
  cells = λ x' y' m n. ground (
    arith,
    h.cells x' y' m n,
    set_cell x s.cursor_y c s.screen_buffer x' y' (omega (arith, h.column_at, h.inside_x))
        h.inside_y m,
    h.row_at,
  );
  empty_below = λ r x' m. ground (arith, h.empty_below r x' m);
}

pub move-Shows :
    (x : ℕ) {p : Page} {s : Screen} {top : ℕ}
    → Shows p s top
    → x < cols
    → Shows (record p { column = x }) (record s { cursor_x = x }) top
move-Shows x h l = record {
  row_at = h.row_at;
  column_at = refl;
  inside_x = l;
  inside_y = h.inside_y;
  cells = h.cells;
  empty_below = h.empty_below;
}

scrolled_cell :
    (m : Mem) (x y : ℕ)
    → x < cols
    → y < rows
    → vesa_scroll m (cell x y) ≡ (if ltb (y + 1) rows then m (cell x (y + 1)) else b' ')
unfolding vesa_scroll
scrolled_cell m x y h k = elim (Bool-cases (ltb (y + 1) rows)) [
  | inl inner ↦
      let a : ltb (cell x y) ((rows - 1) * cols) ≡ true = ground arith in
      let e : cell x y + cols ≡ cell x (y + 1) = omega arith in rw (inner, a, e) refl
  | inr last ↦
      let a : ltb (cell x y) ((rows - 1) * cols) ≡ false = ground arith in
      let b : ltb (cell x y) (rows * cols) ≡ true = ground arith in rw (last, a, b) refl
]

-- The row of the page that the screen starts with after a new line.
abbrev pub new_top : Screen → ℕ → ℕ
new_top s top = if leb rows (s.cursor_y + 1) then top + 1 else top

pub new_line-Shows :
    {p : Page} {s : Screen} {top : ℕ}
    → Shows p s top
    → Shows (next_row p) (new_line s) (new_top s top)
unfolding new_line
new_line-Shows {p} {s} {top} h = elim (Bool-cases (leb rows (s.cursor_y + 1))) [
  | inl last ↦ rw last (record {
    row_at = omega (arith, leb→le rows (s.cursor_y + 1) last, h.row_at, h.inside_y);
    column_at = refl;
    inside_x = omega arith;
    inside_y = omega arith;
    cells = λ x y m n. scrolled x y m n last;
    empty_below = λ r x m. h.empty_below r x (omega arith);
  })
  | inr inner ↦ rw inner (record {
    row_at = omega (arith, h.row_at);
    column_at = refl;
    inside_x = omega arith;
    inside_y = ground arith;
    cells = h.cells;
    empty_below = λ r x m. h.empty_below r x (omega arith);
  })
]
  where
    scrolled :
        (x y : ℕ)
        → x < cols
        → y < rows
        → leb rows (s.cursor_y + 1) ≡ true
        → vesa_scroll s.screen_buffer (cell x y) ≡ p.text (top + 1 + y) x
    scrolled x y m n last = elim (Bool-cases (ltb (y + 1) rows)) [
      | inl inner ↦
          let e : top + (y + 1) ≡ top + 1 + y = omega arith in
          rw
            (
              scrolled_cell s.screen_buffer x y m n,
              inner,
              h.cells x (y + 1) m (ltb→lt _ _ inner),
              e,
            )
            refl
      | inr bottom ↦
          rw
            (
              scrolled_cell s.screen_buffer x y m n,
              bottom,
              h.empty_below (top + 1 + y) x (ground (arith, h.row_at, h.inside_y)),
            )
            refl
    ]
