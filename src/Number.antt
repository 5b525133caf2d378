-- ===== src/Number.antt =====
-- Numbers as text: `print_dec` and `print_hex` of kernel.c, `parse_dec` and `parse_hex` of jit.c.
-- What is printed is the list of the characters given to `print_char`.
pub mod RoundTrip
pub mod Digits
use calculatoros.Prelude.{
  ℕ, zero, suc, ◌+◌, ◌-◌, ◌*◌, ◌/◌, ◌%◌, ◌^◌, Bool, ◌&&◌, Option, none, some, List, [], ◌∷◌, ◌++◌,
  ◌==◌, ltb, leb, if◌then◌else◌,
}
use calculatoros.CString.{ascii}

abbrev pub u32_mod : ℕ
u32_mod = 2 ^ 32

abbrev pub is_digit : ℕ → Bool
is_digit c = leb b'0' c && leb c b'9'

-- The loop of `parse_dec` with `res` read so far.
unfoldable pub dec_from : ℕ → List ℕ → ℕ
dec_from res [] = res
dec_from res (c ∷ s) =
    let rest = dec_from ((res * 10 + (c - b'0')) % u32_mod) s in if is_digit c then rest else res

unfoldable pub parse_dec : List ℕ → ℕ
parse_dec s = dec_from 0 s

-- The value of a hexadecimal digit.
unfoldable pub hex_value : ℕ → Option ℕ
hex_value c =
    if leb b'0' c && leb c b'9'
    then some (c - b'0')
    else if leb b'A' c && leb c b'F'
    then some (c - b'A' + 10)
    else if leb b'a' c && leb c b'f'
    then some (c - b'a' + 10)
    else none

-- The loop of `parse_hex`. The low four bits of `res << 4` are 0, so that `|` is a sum.
unfoldable pub hex_from : ℕ → List ℕ → ℕ
unfolding hex_value
hex_from res [] = res
hex_from res (c ∷ s) = elim (hex_value c) [
  | none ↦ res
  | some v ↦ hex_from (res * 16 % u32_mod + v) s
]

unfoldable pub parse_hex : List ℕ → ℕ
parse_hex s = hex_from 0 s

-- The loop of `print_dec` with `room` bytes of `buf` left below the digits in `out`.
unfoldable pub dec_loop : ℕ → ℕ → List ℕ → List ℕ
dec_loop zero num out = out
dec_loop (suc room) num out =
    let more = dec_loop room (num / 10) ((b'0' + num % 10) ∷ out) in if num == 0 then out else more

unfoldable pub print_dec : ℕ → List ℕ
print_dec num = if num == 0 then b'0' ∷ [] else dec_loop 11 num []

unfoldable pub hex_digit : ℕ → ℕ
hex_digit digit = if ltb digit 10 then b'0' + digit else b'A' + (digit - 10)

-- The loop of `print_hex` for the last `left` digits.
unfoldable pub hex_loop : ℕ → ℕ → List ℕ
unfolding hex_digit
hex_loop zero num = []
hex_loop (suc left) num = hex_digit (num / 16 ^ left % 16) ∷ hex_loop left num

unfoldable pub print_hex : ℕ → List ℕ
print_hex num = b'0' ∷ b'x' ∷ hex_loop 8 num
