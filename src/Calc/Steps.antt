-- ===== src/Calc/Steps.antt =====
-- What the loops of the parser do at a token.
use calculatoros.Prelude.{
  ℕ, ◌≡◌, ◌∙◌, refl, sym, true, false, ◌||◌, List, [], ◌∷◌, ◌++◌, ◌==◌, leb, arith, if◌then◌else◌,
  length,
}
use calculatoros.CString.{head, skip}
use calculatoros.Number.{is_digit}
use calculatoros.Calc.{Double}
use calculatoros.Calc.Numbers.{parse_double, pow}
use calculatoros.Calc.Outcome.{Outcome, ok, divide_error, overrun, out_of_fuel, ◌>>=◌}
use calculatoros.Calc.Vars.{Vars, get_var_double}
use calculatoros.Calc.Parser.{is_letter, atom, combine, closed, opposite}
use calculatoros.Calc.Syntax.{
  all, in_number, TermOp, SumOp, times, over, floor, modulo, plus, less, spaces, term_text,
  sum_text, apply_term, apply_sum,
}
use calculatoros.Calc.Parser.Equations.{
  factor, power, term, expr, powers, terms, sums, factor_lem, powers_lem, terms_lem, sums_lem,
}
use calculatoros.Calc.Tokens.{
  Ends, skip-spaces, skip_other, skip-skip, letters_lem, after_letters_lem, after_number_lem,
  parse_double_lem,
}

module _ {A B : Type 0} where
  pub bind_ext :
      (m : Outcome A) {f g : A → Outcome B} → ((a : A) → f a ≡ g a) → (m >>= f) ≡ (m >>= g)
  bind_ext (ok a) h = h a
  bind_ext divide_error h = refl
  bind_ext overrun h = refl
  bind_ext out_of_fuel h = refl

  pub bind_assoc :
      {C : Type 0} (m : Outcome A) (f : A → Outcome B) (g : B → Outcome C)
      → (m >>= f >>= g) ≡ (m >>= λ a. f a >>= g)
  bind_assoc (ok a) f g = refl
  bind_assoc divide_error f g = refl
  bind_assoc overrun f g = refl
  bind_assoc out_of_fuel f g = refl

pub at_token :
    (k c : ℕ) (s : List ℕ) → (c == b' ') ≡ false → skip b' ' (spaces k ++ (c ∷ s)) ≡ c ∷ s
at_token k c s h = skip-spaces k (c ∷ s) ∙ skip_other b' ' c s h

-- The first byte behind the spaces.
abbrev pub next : List ℕ → ℕ
next rest = head (skip b' ' rest)

-- No operator of a product comes next.
abbrev pub NoTerm : List ℕ → Type 0
NoTerm rest = (next rest == b'*' || next rest == b'/' || next rest == b'%') ≡ false

module _ {W : Type 0} ⦃d : Double W⦄ (t : Vars W) where
  pub factor_at :
      (k c : ℕ) (s : List ℕ)
      → (c == b' ') ≡ false
      → factor t (spaces k ++ (c ∷ s)) ≡ (
          if c == b'-'
          then (factor t s >>= opposite)
          else if c == b'('
          then (expr t s >>= closed)
          else atom t (c ∷ s))
  factor_at k c s h = factor_lem t (spaces k ++ (c ∷ s)) ∙ rw (at_token k c s h) refl

  atom_number :
      (x rest : List ℕ)
      → is_digit (head x) ≡ true
      → all in_number x ≡ true
      → Ends rest
      → atom t (x ++ rest) ≡ ok (parse_double x, rest)
  unfolding atom
  atom_number [] rest s m h = cc
  atom_number (c ∷ x) rest s m h =
      rw (s, parse_double_lem {W = W} (c ∷ x) rest m h, after_number_lem (c ∷ x) rest m h) refl

  atom_name :
      (c : ℕ) (x rest : List ℕ)
      → is_letter c ≡ true
      → all is_letter (c ∷ x) ≡ true
      → leb (length (c ∷ x)) 15 ≡ true
      → Ends rest
      → atom t (c ∷ (x ++ rest)) ≡ ok (get_var_double (c ∷ x) t, skip b' ' rest)
  unfolding atom
  atom_name c x rest s m l h =
      let no_digit : is_digit c ≡ false = ground arith in
      rw (no_digit, s, letters_lem (c ∷ x) rest m h, after_letters_lem (c ∷ x) rest m h, l) refl

  pub number_read :
      (k : ℕ) (x rest : List ℕ)
      → is_digit (head x) ≡ true
      → all in_number x ≡ true
      → Ends rest
      → factor t (spaces k ++ (x ++ rest)) ≡ ok (parse_double x, rest)
  number_read k [] rest s m h = cc
  number_read k (c ∷ x) rest s m h =
      let no_space : (c == b' ') ≡ false = ground arith in
      let no_minus : (c == b'-') ≡ false = ground arith in
      let no_open : (c == b'(') ≡ false = ground arith in
      factor_at k c (x ++ rest) no_space ∙ rw (no_minus, no_open) (atom_number (c ∷ x) rest s m h)

  pub name_read :
      (k : ℕ) (x rest : List ℕ)
      → is_letter (head x) ≡ true
      → all is_letter x ≡ true
      → leb (length x) 15 ≡ true
      → Ends rest
      → factor t (spaces k ++ (x ++ rest)) ≡ ok (get_var_double x t, skip b' ' rest)
  name_read k [] rest s m l h = cc
  name_read k (c ∷ x) rest s m l h =
      let no_space : (c == b' ') ≡ false = ground arith in
      let no_minus : (c == b'-') ≡ false = ground arith in
      let no_open : (c == b'(') ≡ false = ground arith in
      factor_at k c (x ++ rest) no_space ∙ rw (no_minus, no_open) (atom_name c x rest s m l h)

  pub powers-skip : (v : W) (s : List ℕ) → powers t v (skip b' ' s) ≡ powers t v s
  powers-skip v s = powers_lem t v (skip b' ' s) ∙ rw (skip-skip b' ' s) (sym (powers_lem t v s))

  pub terms-skip : (v : W) (s : List ℕ) → terms t v (skip b' ' s) ≡ terms t v s
  terms-skip v s = terms_lem t v (skip b' ' s) ∙ rw (skip-skip b' ' s) (sym (terms_lem t v s))

  pub sums-skip : (v : W) (s : List ℕ) → sums t v (skip b' ' s) ≡ sums t v s
  sums-skip v s = sums_lem t v (skip b' ' s) ∙ rw (skip-skip b' ' s) (sym (sums_lem t v s))

  pub powers_stop :
      (v : W) (rest : List ℕ)
      → (next rest == b'^') ≡ false
      → powers t v rest ≡ ok (v, skip b' ' rest)
  powers_stop v rest h = powers_lem t v rest ∙ rw h refl

  pub powers_step :
      (v : W) (k : ℕ) (s : List ℕ)
      → powers t v (spaces k ++ (b'^' ∷ s)) ≡ (factor t s >>= λ (w, r). powers t (pow v w) r)
  powers_step v k s = powers_lem t v (spaces k ++ (b'^' ∷ s)) ∙ rw (at_token k b'^' s refl) refl

  pub terms_stop : (v : W) (rest : List ℕ) → NoTerm rest → terms t v rest ≡ ok (v, skip b' ' rest)
  terms_stop v rest h =
      let no_slash : (next rest == b'/') ≡ false = ground arith in
      terms_lem t v rest ∙ rw (h, no_slash) refl

  pub terms_step :
      (v : W) (k : ℕ) (op : TermOp) (s : List ℕ)
      → (head s == b'/') ≡ false
      → terms t v (spaces k ++ (term_text op ++ s))
        ≡ (power t s >>= λ (w, r). apply_term op v w >>= λ x. terms t x r)
  unfolding combine
  terms_step v k times s h =
      terms_lem t v (spaces k ++ (b'*' ∷ s)) ∙ rw (at_token k b'*' s refl) refl
  terms_step v k over s h =
      terms_lem t v (spaces k ++ (b'/' ∷ s)) ∙ rw (at_token k b'/' s refl, h) refl
  terms_step v k floor s h =
      terms_lem t v (spaces k ++ (b'/' ∷ b'/' ∷ s)) ∙ rw (at_token k b'/' (b'/' ∷ s) refl) refl
  terms_step v k modulo s h =
      terms_lem t v (spaces k ++ (b'%' ∷ s)) ∙ rw (at_token k b'%' s refl) refl

  pub sums_stop :
      (v : W) (rest : List ℕ)
      → (next rest == b'+' || next rest == b'-') ≡ false
      → sums t v rest ≡ ok (v, skip b' ' rest)
  sums_stop v rest h = sums_lem t v rest ∙ rw h refl

  pub sums_step :
      (v : W) (k : ℕ) (op : SumOp) (s : List ℕ)
      → sums t v (spaces k ++ (sum_text op ∷ s))
        ≡ (term t s >>= λ (w, r). sums t (apply_sum op v w) r)
  sums_step v k plus s = sums_lem t v (spaces k ++ (b'+' ∷ s)) ∙ rw (at_token k b'+' s refl) refl
  sums_step v k less s = sums_lem t v (spaces k ++ (b'-' ∷ s)) ∙ rw (at_token k b'-' s refl) refl
