-- ===== src/Calc/Numbers/Text.antt =====
-- What `print_double` prints for a whole number.
use calculatoros.Prelude.{
  ℕ, zero, suc, ◌+◌, ◌/◌, ◌%◌, ◌^◌, ◌<◌, ◌≡◌, refl, ap, true, false, List, ltb, [], ◌∷◌, ◌++◌, ◌==◌,
  arith, Bool-cases, inl, inr,
}
use native.Mathlib.Nat.{pow-suc}
use calculatoros.Prelude.Int.{ℤ, pos, negsuc, ltb_ℤ}
use calculatoros.CString.{ascii}
use calculatoros.Number.{dec_loop, print_dec}
use calculatoros.Calc.{Double}
use calculatoros.Calc.Numbers.{
  int_max, int_digits, int_text, frac_text, of_nat, print_positive, print_double,
}

-- The values of `int` but the least.
abbrev pub IsInt : ℤ → Type 0
IsInt (pos n) = n < int_max
IsInt (negsuc n) = n + 1 < int_max

-- What IEEE 754 says of whole numbers in the range of `int`, all of which a double holds: they are
-- converted both ways, compared, negated, subtracted from themselves and multiplied by 0 exactly.
pub record IsExact (W : Type 0) ⦃d : Double W⦄ : Type 0 where
  pub to_int-of_nat : (n : ℕ) → n < int_max → d.to_int (of_nat n) ≡ pos n
  pub lt-of_int : (a : ℤ) (b : ℤ) → IsInt a → IsInt b → d.lt (d.of_int a) (d.of_int b) ≡ ltb_ℤ a b
  pub neg-of_int : (n : ℕ) → n + 1 < int_max → d.neg (d.of_int (negsuc n)) ≡ of_nat (suc n)
  pub sub_self : (n : ℕ) → n < int_max → d.sub (of_nat n) (of_nat n) ≡ of_nat 0
  pub zero-mul : (n : ℕ) → n < int_max → d.mul (of_nat 0) (of_nat n) ≡ of_nat 0

int_digits-eq-dec_loop :
    (room num : ℕ) (buf : List ℕ)
    → num < 10 ^ room
    → int_digits room num buf ≡ dec_loop (suc room) num buf
unfolding int_digits dec_loop
int_digits-eq-dec_loop zero num buf h = let e : num ≡ 0 = omega arith in rw e refl
int_digits-eq-dec_loop (suc room) num buf h = elim (Bool-cases (num == 0)) [
  | inl z ↦ rw z refl
  | inr nz ↦
      let d = b'0' + num % 10 in
      rw nz (int_digits-eq-dec_loop room (num / 10) (d ∷ buf) (omega (arith, pow-suc 10 room)))
]

int_text-eq-print_dec : (n : ℕ) → n < int_max → int_text (pos n) ≡ print_dec n
unfolding int_text print_dec
int_text-eq-print_dec n h = elim (Bool-cases (n == 0)) [
  | inl z ↦ rw z refl
  | inr nz ↦ rw nz (int_digits-eq-dec_loop 10 n [] (omega arith))
]

ltb-zero : (n : ℕ) → ltb n 0 ≡ false
ltb-zero n = ground arith

ltb-suc : (n : ℕ) → ltb 0 (0 + suc n) ≡ true
ltb-suc n = ground arith

-- The text of an `int` with its sign.
abbrev pub signed_dec : ℤ → List ℕ
signed_dec (pos n) = print_dec n
signed_dec (negsuc n) = b'-' ∷ print_dec (suc n)

module _ {W : Type 0} ⦃d : Double W⦄ (exact : IsExact W) where
  positive : (n : ℕ) → n < int_max → print_positive (d.of_int (pos n)) ≡ print_dec n ++ ascii ".00"
  unfolding print_positive frac_text
  positive n h =
      rw
        (
          exact.to_int-of_nat n h,
          exact.sub_self n h,
          exact.zero-mul 100 (omega arith),
          exact.to_int-of_nat 0 (omega arith),
          int_text-eq-print_dec n h,
        )
        refl

  -- For arithmetic that is exact on the whole numbers in the range of `int`, `print_double` prints an
  -- `int` other than the least with its sign, its decimal digits as `print_dec` has them, and two zeros after the point.
  pub print_double-of_int :
      (z : ℤ) → IsInt z → print_double (d.of_int z) ≡ signed_dec z ++ ascii ".00"
  unfolding print_double
  print_double-of_int (pos n) h =
      rw (exact.lt-of_int (pos n) (pos 0) h (omega arith), ltb-zero (n + 0)) (positive n h)
  print_double-of_int (negsuc n) h =
      rw (exact.lt-of_int (negsuc n) (pos 0) h (omega arith), exact.neg-of_int n h, ltb-suc n)
        (ap (b'-' ∷◌) (positive (suc n) (omega arith)))
