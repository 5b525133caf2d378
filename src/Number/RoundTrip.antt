-- ===== src/Number/RoundTrip.antt =====
-- What is printed is read back.
use calculatoros.Prelude.{
  ℕ, zero, suc, ◌+◌, ◌-◌, ◌*◌, ◌/◌, ◌%◌, ◌^◌, ◌<◌, ◌≡◌, refl, ap, sym, ◌∙◌, false, List, [], ◌∷◌,
  ◌++◌, ◌==◌, arith, Bool-cases, inl, inr,
}
use native.Mathlib.Nat.{pow-suc}
use calculatoros.CString.{head}
use calculatoros.Number.{u32_mod, is_digit, dec_from, parse_dec, dec_loop, print_dec}

dec_from_digit :
    (num : ℕ) (out : List ℕ)
    → num < u32_mod
    → dec_from (num / 10) ((b'0' + num % 10) ∷ out) ≡ dec_from num out
unfolding dec_from
dec_from_digit num out u =
    let e : (num / 10 * 10 + (b'0' + num % 10 - b'0')) % u32_mod ≡ num = omega arith in
    rw e (ground arith)

-- Reading the digits of `num` after `res` gives `res` shifted by their number, and `num`.
dec_loop_lem :
    (room num : ℕ) (out : List ℕ)
    → num < 10 ^ room
    → num < u32_mod
    → dec_from 0 (dec_loop room num out) ≡ dec_from num out
unfolding dec_loop dec_from
dec_loop_lem zero num out h u = let e : num ≡ 0 = omega arith in rw e
dec_loop_lem (suc room) num out h u = elim (Bool-cases (num == 0)) [
  | inl z ↦ rw (z, (let e : num ≡ 0 = ground arith in e))
  | inr nz ↦
      let d = b'0' + num % 10 in
      rw nz (
        dec_loop_lem room (num / 10) (d ∷ out) (omega (arith, pow-suc 10 room)) (omega arith)
        ∙ dec_from_digit num out u)
]

dec_from_stop : (res : ℕ) (s : List ℕ) → is_digit (head s) ≡ false → dec_from res s ≡ res
unfolding dec_from
dec_from_stop res [] h = refl
dec_from_stop res (c ∷ s) h = rw h

dec_loop-append :
    (room num : ℕ) (out rest : List ℕ)
    → dec_loop room num out ++ rest ≡ dec_loop room num (out ++ rest)
unfolding dec_loop
dec_loop-append zero num out rest = refl
dec_loop-append (suc room) num out rest =
    ground (arith, dec_loop-append room (num / 10) ((b'0' + num % 10) ∷ out) rest)

read_back :
    (room num : ℕ) (rest : List ℕ)
    → num < 10 ^ room
    → num < u32_mod
    → is_digit (head rest) ≡ false
    → dec_from 0 (dec_loop room num [] ++ rest) ≡ num
read_back room num rest h u stop =
    ap (λ s. dec_from 0 s) (dec_loop-append room num [] rest)
    ∙ dec_loop_lem room num rest h u
    ∙ dec_from_stop num rest stop

zero_back :
    (num : ℕ) (rest : List ℕ)
    → num ≡ 0
    → is_digit (head rest) ≡ false
    → dec_from 0 ((b'0' ∷ []) ++ rest) ≡ num
unfolding dec_from
zero_back num rest z stop = dec_from_stop 0 rest stop ∙ sym z

-- `parse_dec` reads back every `uint32_t` that `print_dec` prints, whatever follows that is no
-- digit.
pub parse_dec-print_dec :
    (num : ℕ) (rest : List ℕ)
    → num < u32_mod
    → is_digit (head rest) ≡ false
    → parse_dec (print_dec num ++ rest) ≡ num
unfolding parse_dec print_dec
parse_dec-print_dec num rest u stop = elim (Bool-cases (num == 0)) [
  | inl z ↦ rw z (let e : num ≡ 0 = ground arith in zero_back num rest e stop)
  | inr nz ↦ rw nz (read_back 11 num rest (omega arith) u stop)
]
