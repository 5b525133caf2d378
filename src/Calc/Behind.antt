-- ===== src/Calc/Behind.antt =====
-- What stands at the ends of an expression as it is written.
use calculatoros.Prelude.{
  ℕ, zero, suc, ◌≡◌, refl, Bool, true, false, List, [], ◌∷◌, ◌++◌, ◌==◌, arith, Bool-cases, inl,
  inr,
}
use calculatoros.CString.{head, skip}
use calculatoros.Number.{is_digit}
use calculatoros.Calc.Parser.{is_letter}
use calculatoros.Calc.Syntax.{
  in_number, TermOp, SumOp, times, over, floor, modulo, plus, less, Factor, Power, num, var, minus,
  group, base, raise, spaces, term_text, sum_text, write_factor, write_power,
}
use calculatoros.Calc.Tokens.{Ends, skip-skip, spaces-Ends}
use calculatoros.Calc.Steps.{next, NoTerm, at_token}

-- What `parse_factor` leaves of `rest`: behind a name it has skipped the spaces.
abbrev pub after : Factor → List ℕ → List ℕ
after (num k n) rest = rest
after (var k x) rest = skip b' ' rest
after (minus k e) rest = after e rest
after (group k e j) rest = rest

pub skip-after : (e : Factor) (rest : List ℕ) → skip b' ' (after e rest) ≡ skip b' ' rest
skip-after (num k n) rest = refl
skip-after (var k x) rest = skip-skip b' ' rest
skip-after (minus k e) rest = skip-after e rest
skip-after (group k e j) rest = refl

-- An operator or a parenthesis behind an operand.
pub operator_Ends :
    (k c : ℕ) (s : List ℕ) → in_number c ≡ false → is_letter c ≡ false → Ends (spaces k ++ (c ∷ s))
operator_Ends k c s n l = spaces-Ends k (c ∷ s) (record { no_number = n; no_letter = l })

-- No operand starts with a slash.
spaced_slash :
    (k : ℕ) (s : List ℕ) → (head s == b'/') ≡ false → (head (spaces k ++ s) == b'/') ≡ false
spaced_slash zero s h = h
spaced_slash (suc k) s h = refl

text_slash :
    (test : ℕ → Bool) (x rest : List ℕ)
    → test (head x) ≡ true
    → test b'/' ≡ false
    → test 0 ≡ false
    → (head (x ++ rest) == b'/') ≡ false
text_slash test [] rest h s z = cc
text_slash test (c ∷ x) rest h s z = elim (Bool-cases (c == b'/')) [
  | inl e ↦ let c_eq : c ≡ b'/' = ground arith in let h' = rw c_eq at h in cc
  | inr e ↦ e
]

factor_slash : (e : Factor) (rest : List ℕ) → (head (write_factor e rest) == b'/') ≡ false
unfolding write_factor
factor_slash (num k n) rest = spaced_slash k _ (text_slash is_digit n.text rest n.starts refl refl)
factor_slash (var k x) rest = spaced_slash k _ (text_slash is_letter x.text rest x.starts refl refl)
factor_slash (minus k e) rest = spaced_slash k _ refl
factor_slash (group k e j) rest = spaced_slash k _ refl

pub power_slash : (p : Power) (rest : List ℕ) → (head (write_power p rest) == b'/') ≡ false
unfolding write_power
power_slash (base e) rest = factor_slash e rest
power_slash (raise p k e) rest = power_slash p _

pub term_Ends : (k : ℕ) (op : TermOp) (s : List ℕ) → Ends (spaces k ++ (term_text op ++ s))
term_Ends k times s = operator_Ends k b'*' s refl refl
term_Ends k over s = operator_Ends k b'/' s refl refl
term_Ends k floor s = operator_Ends k b'/' (b'/' ∷ s) refl refl
term_Ends k modulo s = operator_Ends k b'%' s refl refl

pub term_no_power :
    (k : ℕ) (op : TermOp) (s : List ℕ) → (next (spaces k ++ (term_text op ++ s)) == b'^') ≡ false
term_no_power k times s = rw (at_token k b'*' s refl) refl
term_no_power k over s = rw (at_token k b'/' s refl) refl
term_no_power k floor s = rw (at_token k b'/' (b'/' ∷ s) refl) refl
term_no_power k modulo s = rw (at_token k b'%' s refl) refl

-- What stands behind an operand of a sum: an operator of a sum, or what ends one.
pub record Closes (rest : List ℕ) : Type 0 where
  pub ends : Ends rest
  pub no_power : (next rest == b'^') ≡ false
  pub no_term : NoTerm rest

pub sum_Closes : (k : ℕ) (op : SumOp) (s : List ℕ) → Closes (spaces k ++ (sum_text op ∷ s))
sum_Closes k plus s = record {
  ends = operator_Ends k b'+' s refl refl;
  no_power = rw (at_token k b'+' s refl) refl;
  no_term = rw (at_token k b'+' s refl) refl;
}
sum_Closes k less s = record {
  ends = operator_Ends k b'-' s refl refl;
  no_power = rw (at_token k b'-' s refl) refl;
  no_term = rw (at_token k b'-' s refl) refl;
}

pub group_Closes : (j : ℕ) (s : List ℕ) → Closes (spaces j ++ (b')' ∷ s))
group_Closes j s = record {
  ends = operator_Ends j b')' s refl refl;
  no_power = rw (at_token j b')' s refl) refl;
  no_term = rw (at_token j b')' s refl) refl;
}
