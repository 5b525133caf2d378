-- ===== src/Calc/Whole.antt =====
-- What `parse_and_calc_double` makes of a whole line.
use calculatoros.Prelude.{ℕ, zero, suc, ◌≡◌, ◌∙◌, refl, ap, true, List, [], ◌∷◌, arith}
use calculatoros.CString.{skip}
use calculatoros.Calc.{Double}
use calculatoros.Calc.Outcome.{Outcome, ok, ◌>>=◌}
use calculatoros.Calc.Vars.{Vars}
use calculatoros.Calc.Parser.{closed, enough, is_end, parse_expr, parse_and_calc_double}
use calculatoros.Calc.Parser.Equations.{
  factor, power, term, expr, powers, terms, sums, power_lem, term_lem, expr_lem,
}
use calculatoros.Calc.Syntax.{Sum, spaces, write_sum, sum_value}
use calculatoros.Calc.Tokens.{Ends}
use calculatoros.Calc.Steps.{bind_ext, bind_assoc, factor_at, powers_stop, terms_stop, sums_stop}
use calculatoros.Calc.Behind.{Closes}
use calculatoros.Calc.Reads.{read_sum}

skip-spaces : (k : ℕ) → skip b' ' (spaces k) ≡ []
unfolding skip
skip-spaces zero = refl
skip-spaces (suc k) = skip-spaces k

spaces-Ends : (k : ℕ) → Ends (spaces k)
spaces-Ends zero = record { no_number = refl; no_letter = refl }
spaces-Ends (suc k) = record { no_number = refl; no_letter = refl }

spaces-Closes : (k : ℕ) → Closes (spaces k)
spaces-Closes k = record {
  ends = spaces-Ends k;
  no_power = rw (skip-spaces k) refl;
  no_term = rw (skip-spaces k) refl;
}

module _ {W : Type 0} ⦃d : Double W⦄ (t : Vars W) where
  enough_lem : (s : List ℕ) → parse_expr t (enough s) s ≡ expr t s
  enough_lem s = ap (λ f. parse_expr t f s) (omega arith)

  -- At the end of the line.
  sums_end : (v : W) (k : ℕ) → sums t v (spaces k) ≡ ok (v, [])
  sums_end v k =
      sums_stop t v (spaces k) (rw (skip-spaces k) refl) ∙ ap (λ s. ok (v, s)) (skip-spaces k)

  read_result :
      (e : Sum) (k : ℕ) → expr t (write_sum e (spaces k)) ≡ (sum_value t e >>= λ v. ok (v, []))
  read_result e k =
      read_sum t e (spaces k) (spaces-Closes k) ∙ bind_ext (sum_value t e) (λ v. sums_end v k)

  -- Every expression, with any number of spaces before its tokens and at the end, is accepted and has
  -- its value: powers before products before sums, each from the left, and the exception of a
  -- division where the value has one.
  pub parse_and_calc_double-write_sum :
      (e : Sum) (k : ℕ)
      → parse_and_calc_double t (write_sum e (spaces k)) ≡ (sum_value t e >>= λ v. ok (v, true))
  unfolding parse_and_calc_double skip
  parse_and_calc_double-write_sum e k =
      ap (λ m. m >>= λ (v, r). ok (v, is_end (skip b' ' r)))
        (enough_lem (write_sum e (spaces k)) ∙ read_result e k)
      ∙ bind_assoc (sum_value t e) _ _

  power_whole :
      (m : Outcome W) (s : List ℕ)
      → factor t s ≡ (m >>= λ v. ok (v, []))
      → power t s ≡ (m >>= λ v. ok (v, []))
  unfolding skip
  power_whole m s e =
      power_lem t s
      ∙ ap (λ r. r >>= λ (v, u). powers t v u) e
      ∙ bind_assoc m _ _
      ∙ bind_ext m (λ v. powers_stop t v [] refl)

  term_whole :
      (m : Outcome W) (s : List ℕ)
      → power t s ≡ (m >>= λ v. ok (v, []))
      → term t s ≡ (m >>= λ v. ok (v, []))
  unfolding skip
  term_whole m s e =
      term_lem t s
      ∙ ap (λ r. r >>= λ (v, u). terms t v u) e
      ∙ bind_assoc m _ _
      ∙ bind_ext m (λ v. terms_stop t v [] refl)

  expr_whole :
      (m : Outcome W) (s : List ℕ)
      → term t s ≡ (m >>= λ v. ok (v, []))
      → expr t s ≡ (m >>= λ v. ok (v, []))
  unfolding skip
  expr_whole m s e =
      expr_lem t s
      ∙ ap (λ r. r >>= λ (v, u). sums t v u) e
      ∙ bind_assoc m _ _
      ∙ bind_ext m (λ v. sums_stop t v [] refl)

  -- A parenthesis that is never closed is accepted, and the value is that of what follows it.
  pub parse_and_calc_double_open :
      (e : Sum) (k : ℕ)
      → parse_and_calc_double t (b'(' ∷ write_sum e (spaces k))
        ≡ (sum_value t e >>= λ v. ok (v, true))
  unfolding parse_and_calc_double skip
  parse_and_calc_double_open e k =
      let s = b'(' ∷ write_sum e (spaces k) in
      ap (λ m. m >>= λ (v, r). ok (v, is_end (skip b' ' r)))
        (enough_lem s ∙ expr_whole _ s (term_whole _ s (power_whole _ s opened)))
      ∙ bind_assoc (sum_value t e) _ _
    where
      opened : factor t (b'(' ∷ write_sum e (spaces k)) ≡ (sum_value t e >>= λ v. ok (v, []))
      opened =
          factor_at t 0 b'(' (write_sum e (spaces k)) refl
          ∙ ap (λ m. m >>= closed) (read_result e k)
          ∙ bind_assoc (sum_value t e) _ _
