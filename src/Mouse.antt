-- ===== src/Mouse.antt =====
-- kernel.c: `mouse_handler`, which takes the three bytes of a packet from the PS/2 port and moves the
-- pointer. The byte is an argument, and the screen has at least one column and one row.
pub mod Inside
mod Tests
use calculatoros.Prelude.{
  ℕ, zero, suc, ◌+◌, ◌-◌, ◌/◌, ◌%◌, Bool, true, false, List, [], ◌∷◌, ◌==◌, ltb, leb, if◌then◌else◌,
}
use calculatoros.Prelude.Int.{ℤ, pos, negsuc}

-- `mouse_cycle`, `mouse_byte`, and the pointer with its buttons.
pub record Mouse : Type 0 where
  pub cycle : ℕ
  pub byte0 : ℕ
  pub byte1 : ℕ
  pub byte2 : ℕ
  pub left : ℕ
  pub right : ℕ
  pub x : ℕ
  pub y : ℕ

-- `(int8_t)b`
unfoldable pub as_int8 : ℕ → ℤ
as_int8 b = if ltb b 128 then pos b else negsuc (255 - b)

-- `-n`, for a number above the least `int`.
unfoldable pub opposite_of : ℤ → ℤ
opposite_of (pos zero) = pos 0
opposite_of (pos (suc n)) = negsuc n
opposite_of (negsuc n) = pos (suc n)

-- Not above 40 and not below -40.
unfoldable pub clamped : ℤ → ℤ
clamped (pos n) = if ltb 40 n then pos 40 else pos n
clamped (negsuc n) = if ltb 39 n then negsuc 39 else negsuc n

-- `n + d`, put back to the range from 0 up to `limit - 1`.
unfoldable pub moved : ℕ → ℕ → ℤ → ℕ
moved limit n (pos d) = if leb limit (n + d) then limit - 1 else n + d
moved limit n (negsuc d) = if leb limit (n - suc d) then limit - 1 else n - suc d

-- The packet in `mouse_byte`.
unfoldable pub on_packet : ℕ → ℕ → Mouse → Mouse
unfolding as_int8 opposite_of clamped moved
on_packet width height m = record m {
  cycle = 0;
  left = m.byte0 % 2;
  right = m.byte0 / 2 % 2;
  x = moved width m.x (clamped (as_int8 m.byte1));
  y = moved height m.y (clamped (opposite_of (as_int8 m.byte2)));
}

unfoldable pub mouse_handler : ℕ → ℕ → ℕ → Mouse → Mouse
mouse_handler width height b m =
    if m.cycle == 0
    then (if b / 8 % 2 == 0 then m else record m { cycle = 1; byte0 = b })
    else if m.cycle == 1
    then record m { cycle = 2; byte1 = b }
    else if m.cycle == 2
    then on_packet width height (record m { byte2 = b })
    else m

-- The interrupts for a sequence of bytes.
unfoldable pub on_bytes : ℕ → ℕ → List ℕ → Mouse → Mouse
on_bytes width height [] m = m
on_bytes width height (b ∷ bs) m = on_bytes width height bs (mouse_handler width height b m)
