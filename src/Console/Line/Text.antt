-- ===== src/Console/Line/Text.antt =====
-- What the editor does to the text of the line.
use calculatoros.Prelude.{
  ℕ, zero, suc, ◌+◌, ◌-◌, ◌≤◌, ◌<◌, ◌≡◌, ◌≢◌, ◌⊎◌, ◌∙◌, refl, ap, sym, false, List, [], ◌∷◌, ◌++◌,
  ◌==◌, ltb, arith, Bool-cases, inl, inr, if◌then◌else◌, length,
}
use calculatoros.Memory.{Mem}
use calculatoros.Console.Line.{
  Line, Console, refreshed, place_cursor, inserted, erased, on_insert, on_erase, on_char, copied,
}
use calculatoros.Console.Line.Bounds.{IsLine}

-- A text with a cursor, before the character that the index names.
pub record Edited : Type 0 where
  pub text : List ℕ
  pub cursor : ℕ

module _ {A : Type 0} where
  pub insert_at : List A → ℕ → A → List A
  insert_at xs zero y = y ∷ xs
  insert_at [] (suc i) y = y ∷ []
  insert_at (x ∷ xs) (suc i) y = x ∷ insert_at xs i y

  pub erase_at : List A → ℕ → List A
  erase_at [] i = []
  erase_at (x ∷ xs) zero = xs
  erase_at (x ∷ xs) (suc i) = x ∷ erase_at xs i

pub insert_end : (t : List ℕ) (c : ℕ) → insert_at t (length t) c ≡ t ++ (c ∷ [])
unfolding insert_at
insert_end [] c = refl
insert_end (x ∷ t) c = ap (x ∷◌) (insert_end t c)

-- What a character does: a backspace erases before the cursor, another character is inserted there
-- as long as the text has fewer than `max_len - 1`.
unfoldable pub type_key : ℕ → ℕ → Edited → Edited
type_key max_len c e =
    if c == 8
    then (if ltb 0 e.cursor
        then record { text = erase_at e.text (e.cursor - 1); cursor = e.cursor - 1 }
        else e)
    else if ltb (length e.text) (max_len - 1)
    then record { text = insert_at e.text e.cursor c; cursor = e.cursor + 1 }
    else e

-- The `n` bytes from index `i` on.
abbrev pub span : Mem → ℕ → ℕ → List ℕ
span m i zero = []
span m i (suc n) = m i ∷ span m (i + 1) n

abbrev pub edited : Line → Edited
edited l = record { text = span l.input_buffer 0 l.input_len; cursor = l.input_pos }

pub length-span : (m : Mem) (i n : ℕ) → length (span m i n) ≡ n
length-span m i zero = refl
length-span m i (suc n) = ap suc (length-span m (i + 1) n)

-- Two memories that agree on a span, the second shifted by one.
span_shift :
    (m m' : Mem) (i n : ℕ)
    → ((j : ℕ) → i ≤ j → j < i + n → m' (j + 1) ≡ m j)
    → span m' (i + 1) n ≡ span m i n
span_shift m m' i zero h = refl
span_shift m m' i (suc n) h = cc (
  h i (omega arith) (omega arith),
  span_shift m m' (i + 1) n (λ j l k. h j (omega arith) (omega arith)),
)

at_or_below : (i pos : ℕ) → i ≤ pos → (pos ≡ i) ⊎ (i < pos)
at_or_below i pos h = omega arith

inserted_above :
    (pos len c : ℕ) (m : Mem) (j : ℕ) → pos ≤ j → j + 1 ≤ len → inserted pos len c m (j + 1) ≡ m j
inserted_above pos len c m j h k = let e : j + 1 - 1 ≡ j = omega arith in ground (arith, ap m e)

erased_above :
    (pos len : ℕ) (m : Mem) (j : ℕ) → pos - 1 ≤ j → j < len - 1 → erased pos len m j ≡ m (j + 1)
erased_above pos len m j h k = ground arith

-- The first memory has at each place what the second has behind it.
span_same :
    (m' m : Mem) (i n : ℕ)
    → ((j : ℕ) → i ≤ j → j < i + n → m' j ≡ m (j + 1))
    → span m' i n ≡ span m (i + 1) n
span_same m' m i zero h = refl
span_same m' m i (suc n) h = cc (
  h i (omega arith) (omega arith),
  span_same m' m (i + 1) n (λ j l k. h j (omega arith) (omega arith)),
)

insert_here :
    (pos len c : ℕ) (m : Mem) (n i : ℕ)
    → pos ≡ i
    → len ≡ i + n
    → span (inserted pos len c m) i (suc n) ≡ insert_at (span m i n) (pos - i) c
unfolding insert_at
insert_here pos len c m n i here e =
    let z : pos - i ≡ 0 = omega arith in
    let first : inserted pos len c m i ≡ c = ground arith in
    let rest =
      span_shift m (inserted pos len c m) i n
        (λ j a b. inserted_above pos len c m j (omega arith) (omega arith)) in
    rw (z, first, rest) refl

span-inserted :
    (pos len c : ℕ) (m : Mem) (n i : ℕ)
    → i ≤ pos
    → pos ≤ i + n
    → len ≡ i + n
    → span (inserted pos len c m) i (suc n) ≡ insert_at (span m i n) (pos - i) c
unfolding insert_at
span-inserted pos len c m zero i l k e = insert_here pos len c m zero i (omega arith) e
span-inserted pos len c m (suc n) i l k e = elim (at_or_below i pos l) [
  | inl here ↦ insert_here pos len c m (suc n) i here e
  | inr below ↦
      let z : pos - i ≡ suc (pos - (i + 1)) = omega arith in
      let first : inserted pos len c m i ≡ m i = ground arith in
      rw (z, first, span-inserted pos len c m n (i + 1) (omega arith) (omega arith) (omega arith))
        refl
]

span-erased :
    (pos len : ℕ) (m : Mem) (n i : ℕ)
    → i < pos
    → pos ≤ i + suc n
    → len ≡ i + suc n
    → span (erased pos len m) i n ≡ erase_at (span m i (suc n)) (pos - 1 - i)
unfolding erase_at
span-erased pos len m zero i l k e = let z : pos - 1 - i ≡ 0 = omega arith in rw z refl
span-erased pos len m (suc n) i l k e = elim (at_or_below i (pos - 1) (omega arith)) [
  | inl here ↦
      let z : pos - 1 - i ≡ 0 = omega arith in
      rw
        (
          z,
          span_same (erased pos len m) m i (suc n)
              (λ j a b. erased_above pos len m j (omega arith) (omega arith)),
        )
        refl
  | inr below ↦
      let z : pos - 1 - i ≡ suc (pos - 1 - (i + 1)) = omega arith in
      let first : erased pos len m i ≡ m i = ground arith in
      rw (z, first, span-erased pos len m n (i + 1) (omega arith) (omega arith) (omega arith)) refl
]

-- The editing of the buffer is that of the text.
on_insert-edited :
    (max_len c : ℕ) (l : Line)
    → IsLine max_len l
    → edited (on_insert c l)
      ≡ record { text = insert_at (edited l).text l.input_pos c; cursor = l.input_pos + 1 }
unfolding on_insert
on_insert-edited max_len c l h =
    let longer : l.input_len + 1 ≡ suc l.input_len = omega arith in
    let whole : l.input_pos - 0 ≡ l.input_pos = omega arith in
    ap (λ t. record { text = t; cursor = l.input_pos + 1 })
      (ap (span (inserted l.input_pos l.input_len c l.input_buffer) 0) longer
        ∙ span-inserted l.input_pos l.input_len c l.input_buffer l.input_len 0 (omega arith)
            (omega (arith, h.within)) (omega arith)
        ∙ ap (λ i. insert_at (edited l).text i c) whole)

on_erase-edited :
    (max_len : ℕ) (l : Line)
    → IsLine max_len l
    → 0 < l.input_pos
    → edited (on_erase l)
      ≡ record { text = erase_at (edited l).text (l.input_pos - 1); cursor = l.input_pos - 1 }
unfolding on_erase
on_erase-edited max_len l h p =
    let n = l.input_len - 1 in
    let e : l.input_len ≡ suc n = omega (arith, h.within) in
    ap (λ t. record { text = t; cursor = l.input_pos - 1 })
      (span-erased l.input_pos l.input_len l.input_buffer n 0 p (omega (arith, h.within))
          (omega arith)
        ∙ ap (erase_at (span l.input_buffer 0 (suc n))) (omega arith)
        ∙ ap (λ k. erase_at (span l.input_buffer 0 k) (l.input_pos - 1)) (sym e))

-- A character other than a newline edits the text as `type_key` says: it is inserted before the
-- cursor if it fits, a backspace erases the character before the cursor, and the rest stays.
pub on_char-type_key :
    (max_len : ℕ) (buffer : Mem) (c : ℕ) (s : Console)
    → IsLine max_len s.line
    → c ≢ 10
    → edited ((on_char max_len buffer c s).2).line ≡ type_key max_len c (edited s.line)
unfolding on_char refreshed place_cursor type_key
on_char-type_key max_len buffer c s h n =
    let no_line : (c == 10) ≡ false = ground arith in
    let l = s.line in
    let size = length-span l.input_buffer 0 l.input_len in
    elim (Bool-cases (c == 8)) [
      | inl back ↦ elim (Bool-cases (ltb 0 l.input_pos)) [
        | inl some_left ↦ rw (no_line, back, some_left) (on_erase-edited max_len l h (ground arith))
        | inr at_start ↦ rw (no_line, back, at_start) refl
      ]
      | inr other ↦ elim (Bool-cases (ltb l.input_len (max_len - 1))) [
        | inl room ↦ rw (no_line, other, size, room) (on_insert-edited max_len c l h)
        | inr full ↦ rw (no_line, other, size, full) refl
      ]
    ]

pub span-copied :
    (max_len : ℕ) (l : Line) (buffer : Mem) (n i : ℕ)
    → i + n ≤ l.input_len
    → l.input_len ≤ max_len - 1
    → span (copied max_len l buffer) i n ≡ span l.input_buffer i n
span-copied max_len l buffer zero i h k = refl
span-copied max_len l buffer (suc n) i h k =
    let first : copied max_len l buffer i ≡ l.input_buffer i = ground arith in
    rw (first, span-copied max_len l buffer n (i + 1) (omega arith) k) refl
