-- ===== src/Number/Digits.antt =====
-- What `print_dec` prints are digits, at least one.
use calculatoros.Prelude.{
  ℕ, zero, suc, ◌+◌, ◌/◌, ◌%◌, ◌≡◌, refl, true, false, List, [], ◌∷◌, ◌==◌, arith, Bool-cases, inl,
  inr,
}
use calculatoros.Number.{is_digit, dec_loop, print_dec}

-- A non-empty text of digits.
pub data AreDigits : List ℕ → Type 0 where
  last : {c : ℕ} → is_digit c ≡ true → AreDigits (c ∷ [])
  more : {c : ℕ} → {s : List ℕ} → is_digit c ≡ true → AreDigits s → AreDigits (c ∷ s)

digit_lem : (num : ℕ) → is_digit (b'0' + num % 10) ≡ true
digit_lem num = ground arith

dec_loop-AreDigits :
    (room num : ℕ) (out : List ℕ) → AreDigits out → AreDigits (dec_loop room num out)
unfolding dec_loop
dec_loop-AreDigits zero num out h = h
dec_loop-AreDigits (suc room) num out h = elim (Bool-cases (num == 0)) [
  | inl z ↦ rw z h
  | inr nz ↦ rw nz (dec_loop-AreDigits room (num / 10) _ (more (digit_lem num) h))
]

start : (room num : ℕ) → (num == 0) ≡ false → AreDigits (dec_loop (suc room) num [])
unfolding dec_loop
start room num nz = rw nz (dec_loop-AreDigits room (num / 10) _ (last (digit_lem num)))

pub print_dec-AreDigits : (num : ℕ) → AreDigits (print_dec num)
unfolding print_dec
print_dec-AreDigits num = elim (Bool-cases (num == 0)) [
  | inl z ↦ rw z (last refl)
  | inr nz ↦ rw nz (start 10 num nz)
]
