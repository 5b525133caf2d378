-- ===== src/Calc/Tokens.antt =====
-- Where the tokens of the parser end.
use calculatoros.Prelude.{
  ℕ, zero, suc, ◌≡◌, refl, Bool, true, false, ◌||◌, List, [], ◌∷◌, ◌++◌, ◌==◌, arith, Bool-cases,
  inl, inr,
}
use calculatoros.CString.{head, skip}
use calculatoros.Number.{is_digit}
use calculatoros.Calc.{Double}
use calculatoros.Calc.Numbers.{parse_double, whole_part, with_fraction, fraction, of_nat}
use calculatoros.Calc.Parser.{is_letter, letters, after_letters, after_number}
use calculatoros.Calc.Syntax.{all, in_number, spaces}

-- What may stand behind a number or a name.
pub record Ends (rest : List ℕ) : Type 0 where
  pub no_number : in_number (head rest) ≡ false
  pub no_letter : is_letter (head rest) ≡ false

pub skip-spaces : (k : ℕ) (s : List ℕ) → skip b' ' (spaces k ++ s) ≡ skip b' ' s
unfolding skip
skip-spaces zero s = refl
skip-spaces (suc k) s = skip-spaces k s

pub skip_other : (c e : ℕ) (s : List ℕ) → (e == c) ≡ false → skip c (e ∷ s) ≡ e ∷ s
unfolding skip
skip_other c e s h = rw h refl

pub skip-skip : (c : ℕ) (s : List ℕ) → skip c (skip c s) ≡ skip c s
unfolding skip
skip-skip c [] = refl
skip-skip c (e ∷ s) = elim (Bool-cases (e == c)) [
  | inl same ↦ rw same (skip-skip c s)
  | inr other ↦ rw (other, other) refl
]

pub spaces-Ends : (k : ℕ) (s : List ℕ) → Ends s → Ends (spaces k ++ s)
spaces-Ends zero s h = h
spaces-Ends (suc k) s h = record { no_number = refl; no_letter = refl }

pub letters_lem : (x rest : List ℕ) → all is_letter x ≡ true → Ends rest → letters (x ++ rest) ≡ x
unfolding letters
letters_lem [] [] m h = refl
letters_lem [] (c ∷ rest) m h = ground (arith, h.no_letter)
letters_lem (c ∷ x) rest m h = ground (arith, letters_lem x rest)

pub after_letters_lem :
    (x rest : List ℕ) → all is_letter x ≡ true → Ends rest → after_letters (x ++ rest) ≡ rest
unfolding after_letters
after_letters_lem [] [] m h = refl
after_letters_lem [] (c ∷ rest) m h = ground (arith, h.no_letter)
after_letters_lem (c ∷ x) rest m h = ground (arith, after_letters_lem x rest)

pub after_number_lem :
    (x rest : List ℕ) → all in_number x ≡ true → Ends rest → after_number (x ++ rest) ≡ rest
unfolding after_number
after_number_lem [] [] m h = refl
after_number_lem [] (c ∷ rest) m h = ground (arith, h.no_number)
after_number_lem (c ∷ x) rest m h = ground (arith, after_number_lem x rest)

or_false : (a b : Bool) → (a || b) ≡ false → (a ≡ false) × (b ≡ false)
or_false false false e = (refl, refl)
or_false false true e = cc
or_false true b e = cc

module _ {W : Type 0} ⦃d : Double W⦄ where
  fraction_lem :
      (x rest : List ℕ) (res frac : W)
      → Ends rest
      → fraction res frac (x ++ rest) ≡ fraction res frac x
  unfolding fraction
  fraction_lem [] [] res frac h = refl
  fraction_lem [] (c ∷ rest) res frac h = rw (or_false (is_digit c) (c == b'.') h.no_number).0 refl
  fraction_lem (c ∷ x) rest res frac h = elim (Bool-cases (is_digit c)) [
    | inl digit ↦ rw digit (fraction_lem x rest _ _ h)
    | inr other ↦ rw other refl
  ]

  number_lem :
      (x rest : List ℕ) (res : W)
      → all in_number x ≡ true
      → Ends rest
      → with_fraction (whole_part res (x ++ rest)) ≡ with_fraction (whole_part res x)
  unfolding whole_part with_fraction
  number_lem [] [] res m h = refl
  number_lem [] (c ∷ rest) res m h =
      let (not_digit, not_point) = or_false (is_digit c) (c == b'.') h.no_number in
      rw (not_digit, not_point) refl
  number_lem (c ∷ x) rest res m h = elim (Bool-cases (is_digit c)) [
    | inl digit ↦ rw digit (number_lem x rest _ (ground arith) h)
    | inr other ↦ rw (other, fraction_lem x rest res d.tenth h) refl
  ]

  pub parse_double_lem :
      (x rest : List ℕ)
      → all in_number x ≡ true
      → Ends rest
      → parse_double {W = W} (x ++ rest) ≡ parse_double x
  unfolding parse_double
  parse_double_lem x rest m h = number_lem x rest (of_nat 0) m h
