-- ===== src/Calc/Reads.antt =====
-- The parser reads an expression as it is written, and computes its value.
use calculatoros.Prelude.{ℕ, ◌≡◌, ◌∙◌, refl, ap, sym, false, List, ◌∷◌, ◌++◌, ◌==◌}
use calculatoros.CString.{skip}
use calculatoros.Calc.{Double}
use calculatoros.Calc.Numbers.{pow}
use calculatoros.Calc.Outcome.{Outcome, ok, ◌>>=◌}
use calculatoros.Calc.Vars.{Vars}
use calculatoros.Calc.Parser.{closed, opposite}
use calculatoros.Calc.Syntax.{
  Factor, Power, Product, Sum, num, var, minus, group, base, raise, one, product, only, sum, spaces,
  write_factor, write_power, write_product, write_sum, apply_term, apply_sum, factor_value,
  power_value, product_value, sum_value,
}
use calculatoros.Calc.Parser.Equations.{
  factor, power, term, expr, powers, terms, sums, power_lem, term_lem, expr_lem,
}
use calculatoros.Calc.Tokens.{Ends}
use calculatoros.Calc.Steps.{
  bind_ext, bind_assoc, next, NoTerm, at_token, factor_at, number_read, name_read, powers-skip,
  terms-skip, sums-skip, powers_stop, powers_step, terms_stop, terms_step, sums_stop, sums_step,
}
use calculatoros.Calc.Behind.{
  after, skip-after, operator_Ends, power_slash, term_Ends, term_no_power, Closes, sum_Closes,
  group_Closes,
}

module _ {W : Type 0} ⦃d : Double W⦄ (t : Vars W) where
  close_group :
      (v : W) (j : ℕ) (rest : List ℕ)
      → (sums t v (spaces j ++ (b')' ∷ rest)) >>= closed) ≡ ok (v, rest)
  close_group v j rest =
      rw
        (
          sums_stop t v (spaces j ++ (b')' ∷ rest)) (rw (at_token j b')' rest refl) refl),
          at_token j b')' rest refl,
        )
        refl

  powers-after : (e : Factor) (v : W) (rest : List ℕ) → powers t v (after e rest) ≡ powers t v rest
  powers-after e v rest =
      sym (powers-skip t v (after e rest)) ∙ rw (skip-after e rest) (powers-skip t v rest)

  -- Behind an operand of a product, and of a sum.
  operand_ends :
      (value : Outcome W) (m : Outcome (W × List ℕ)) (rest : List ℕ)
      → m ≡ (value >>= λ v. powers t v rest)
      → (next rest == b'^') ≡ false
      → m ≡ (value >>= λ v. ok (v, skip b' ' rest))
  operand_ends value m rest e n = e ∙ bind_ext value (λ v. powers_stop t v rest n)

  summand_ends :
      (value : Outcome W) (m : Outcome (W × List ℕ)) (rest : List ℕ)
      → m ≡ (value >>= λ v. terms t v rest)
      → NoTerm rest
      → m ≡ (value >>= λ v. ok (v, skip b' ' rest))
  summand_ends value m rest e n = e ∙ bind_ext value (λ v. terms_stop t v rest n)

  mutual
    unfolding write_factor write_power write_product write_sum factor_value power_value
        product_value sum_value

    pub read_factor :
        (e : Factor) (rest : List ℕ)
        → Ends rest
        → factor t (write_factor e rest) ≡ (factor_value t e >>= λ v. ok (v, after e rest))
    read_factor (num k n) rest h = number_read t k n.text rest n.starts n.made h
    read_factor (var k x) rest h = name_read t k x.text rest x.starts x.made x.fits h
    read_factor (minus k e) rest h =
        factor_at t k b'-' (write_factor e rest) refl
        ∙ ap (λ m. m >>= opposite) (read_factor e rest h)
        ∙ bind_assoc (factor_value t e) _ _
        ∙ sym (bind_assoc (factor_value t e) _ _)
    read_factor (group k e j) rest h =
        factor_at t k b'(' (write_sum e (spaces j ++ (b')' ∷ rest))) refl
        ∙ ap (λ m. m >>= closed) (read_sum e _ (group_Closes j rest))
        ∙ bind_assoc (sum_value t e) _ _
        ∙ bind_ext (sum_value t e) (λ v. close_group v j rest)

    pub read_power :
        (p : Power) (rest : List ℕ)
        → Ends rest
        → power t (write_power p rest) ≡ (power_value t p >>= λ v. powers t v rest)
    read_power (base e) rest h =
        power_lem t (write_factor e rest)
        ∙ ap (λ m. m >>= λ (v, r). powers t v r) (read_factor e rest h)
        ∙ bind_assoc (factor_value t e) _ _
        ∙ bind_ext (factor_value t e) (λ v. powers-after e v rest)
    read_power (raise p k e) rest h =
        read_power p _ (operator_Ends k b'^' (write_factor e rest) refl refl)
        ∙ bind_ext (power_value t p) (λ v.
          powers_step t v k (write_factor e rest)
          ∙ ap (λ m. m >>= λ (w, r). powers t (pow v w) r) (read_factor e rest h)
          ∙ bind_assoc (factor_value t e) _ _
          ∙ bind_ext (factor_value t e) (λ w. powers-after e (pow v w) rest)
          ∙ sym (bind_assoc (factor_value t e) _ _))
        ∙ sym (bind_assoc (power_value t p) _ _)

    pub read_product :
        (q : Product) (rest : List ℕ)
        → Ends rest
        → (next rest == b'^') ≡ false
        → term t (write_product q rest) ≡ (product_value t q >>= λ v. terms t v rest)
    read_product (one p) rest h n =
        term_lem t (write_power p rest)
        ∙ ap (λ m. m >>= λ (v, r). terms t v r)
            (operand_ends (power_value t p) _ rest (read_power p rest h) n)
        ∙ bind_assoc (power_value t p) _ _
        ∙ bind_ext (power_value t p) (λ v. terms-skip t v rest)
    read_product (product q k op p) rest h n =
        read_product q _ (term_Ends k op (write_power p rest))
          (term_no_power k op (write_power p rest))
        ∙ bind_ext (product_value t q) (λ v.
          terms_step t v k op (write_power p rest) (power_slash p rest)
          ∙ ap (λ m. m >>= λ (w, r). apply_term op v w >>= λ x. terms t x r)
              (operand_ends (power_value t p) _ rest (read_power p rest h) n)
          ∙ bind_assoc (power_value t p) _ _
          ∙ bind_ext (power_value t p)
              (λ w. bind_ext (apply_term op v w) (λ x. terms-skip t x rest))
          ∙ sym (bind_assoc (power_value t p) _ _))
        ∙ sym (bind_assoc (product_value t q) _ _)

    pub read_sum :
        (e : Sum) (rest : List ℕ)
        → Closes rest
        → expr t (write_sum e rest) ≡ (sum_value t e >>= λ v. sums t v rest)
    read_sum (only q) rest h =
        expr_lem t (write_product q rest)
        ∙ ap (λ m. m >>= λ (v, r). sums t v r)
            (summand_ends (product_value t q) _ rest (read_product q rest h.ends h.no_power)
              h.no_term)
        ∙ bind_assoc (product_value t q) _ _
        ∙ bind_ext (product_value t q) (λ v. sums-skip t v rest)
    read_sum (sum e k op q) rest h =
        read_sum e _ (sum_Closes k op (write_product q rest))
        ∙ bind_ext (sum_value t e) (λ v.
          sums_step t v k op (write_product q rest)
          ∙ ap (λ m. m >>= λ (w, r). sums t (apply_sum op v w) r)
              (summand_ends (product_value t q) _ rest (read_product q rest h.ends h.no_power)
                h.no_term)
          ∙ bind_assoc (product_value t q) _ _
          ∙ bind_ext (product_value t q) (λ w. sums-skip t (apply_sum op v w) rest)
          ∙ sym (bind_assoc (product_value t q) _ _))
        ∙ sym (bind_assoc (sum_value t e) _ _)
