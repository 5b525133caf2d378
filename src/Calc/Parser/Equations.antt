-- ===== src/Calc/Parser/Equations.antt =====
-- The parser's functions with enough fuel satisfy the equations of the code, where the fuel is gone.
use calculatoros.Prelude.{
  ℕ, suc, ◌+◌, ◌-◌, ◌*◌, ◌≤◌, ◌≡◌, refl, ◌&&◌, ◌||◌, List, ◌==◌, arith, if◌then◌else◌, length,
}
use calculatoros.CString.{head, tail, skip}
use calculatoros.Calc.{Double}
use calculatoros.Calc.Numbers.{pow}
use calculatoros.Calc.Outcome.{Outcome, ok, ◌>>=◌, bind_cong, if_cong}
use calculatoros.Calc.Vars.{Vars}
use calculatoros.Calc.Parser.{
  atom, combine, closed, opposite, parse_factor, parse_power, power_loop, parse_term, term_loop,
  parse_expr, expr_loop,
}
use calculatoros.Calc.Parser.Fuel.{
  length-skip, Leaves, combine-Ensures, shorter_power, shorter_whole, shorter_term, shorter_sum,
  shorter_minus, shorter_open, parse_factor-Leaves, parse_power-Leaves, parse_term-Leaves,
  parse_expr-Leaves,
}
use calculatoros.Calc.Parser.Same.{
  parse_factor-same, parse_power-same, power_loop-same, parse_term-same, term_loop-same,
  parse_expr-same, expr_loop-same,
}

module _ {W : Type 0} ⦃d : Double W⦄ (t : Vars W) where
  abbrev pub factor : List ℕ → Outcome (W × List ℕ)
  factor s = parse_factor t (suc (4 * length s + 0)) s

  abbrev pub power : List ℕ → Outcome (W × List ℕ)
  power s = parse_power t (suc (4 * length s + 1)) s

  abbrev pub term : List ℕ → Outcome (W × List ℕ)
  term s = parse_term t (suc (4 * length s + 2)) s

  abbrev pub expr : List ℕ → Outcome (W × List ℕ)
  expr s = parse_expr t (suc (4 * length s + 3)) s

  abbrev pub powers : W → List ℕ → Outcome (W × List ℕ)
  powers val s = power_loop t (suc (4 * length s)) val s

  abbrev pub terms : W → List ℕ → Outcome (W × List ℕ)
  terms val s = term_loop t (suc (4 * length s)) val s

  abbrev pub sums : W → List ℕ → Outcome (W × List ℕ)
  sums val s = expr_loop t (suc (4 * length s)) val s

  pub factor_lem :
      (s : List ℕ)
      → factor s ≡ (
          let s = skip b' ' s in
          if head s == b'-'
          then (factor (tail s) >>= opposite)
          else if head s == b'('
          then expr (tail s) >>= closed
          else atom t s)
  unfolding parse_factor
  factor_lem s =
      let s' = skip b' ' s in
      let short : length s' ≤ length s = length-skip b' ' s in
      if_cong (head s' == b'-') _ _ _ _
        (λ op.
          let less = shorter_minus s' op in
          bind_cong (Leaves {W = W} (length s' - 1)) (parse_factor t (4 * length s + 0) (tail s')) _
            _ _
            (parse_factor-Leaves t (4 * length s + 0) (tail s') (length (tail s')) (length s' - 1)
              (omega arith) (omega arith) (omega arith))
            (parse_factor-same t ((4 * length s + 0)) (suc (4 * length (tail s') + 0)) (tail s')
              (length (tail s')) (omega arith) (omega arith) (omega arith))
            (λ a q. refl))
        λ _.
          if_cong (head s' == b'(') _ _ _ _
            (λ op.
              let less = shorter_open s' op in
              bind_cong (Leaves {W = W} (length s' - 1)) (parse_expr t (4 * length s + 0) (tail s'))
                _ _ _
                (parse_expr-Leaves t (4 * length s + 0) (tail s') (length (tail s')) (length s' - 1)
                  (omega arith) (omega arith) (omega arith))
                (parse_expr-same t ((4 * length s + 0)) (suc (4 * length (tail s') + 3)) (tail s')
                  (length (tail s')) (omega arith) (omega arith) (omega arith))
                (λ a q. refl))
            (λ _. refl)

  pub power_lem : (s : List ℕ) → power s ≡ (factor s >>= λ (v, r). powers v r)
  unfolding parse_power
  power_lem s =
      bind_cong (Leaves {W = W} (length s)) (parse_factor t (4 * length s + 1) s) _ _
        (λ (v, r). powers v r)
        (parse_factor-Leaves t (4 * length s + 1) (s) (length (s)) (length s) (omega arith)
          (omega arith) (omega arith))
        (parse_factor-same t ((4 * length s + 1)) (suc (4 * length (s) + 0)) s (length (s))
          (omega arith) (omega arith) (omega arith))
        (λ (v, r) q.
          power_loop-same t ((4 * length s + 1)) (suc (4 * length (r))) v r (length (r))
            (omega arith) (omega arith) (omega arith))

  pub powers_lem :
      (val : W) (s : List ℕ)
      → powers val s ≡ (
          let s = skip b' ' s in
          if head s == b'^'
          then (factor (tail s) >>= λ (v, r). powers (pow val v) r)
          else ok (val, s))
  unfolding power_loop
  powers_lem val s =
      let s' = skip b' ' s in
      let short : length s' ≤ length s = length-skip b' ' s in
      if_cong (head s' == b'^') _ _ _ _
        (λ op.
          let less = shorter_power s' op in
          bind_cong (Leaves {W = W} (length s' - 1)) (parse_factor t (4 * length s) (tail s')) _ _ _
            (parse_factor-Leaves t (4 * length s) (tail s') (length (tail s')) (length s' - 1)
              (omega arith) (omega arith) (omega arith))
            (parse_factor-same t ((4 * length s)) (suc (4 * length (tail s') + 0)) (tail s')
              (length (tail s')) (omega arith) (omega arith) (omega arith))
            (λ (v, r) q.
              power_loop-same t ((4 * length s)) (suc (4 * length (r))) (pow val v) r (length (r))
                (omega arith) (omega arith) (omega arith)))
        (λ _. refl)

  pub term_lem : (s : List ℕ) → term s ≡ (power s >>= λ (v, r). terms v r)
  unfolding parse_term
  term_lem s =
      bind_cong (Leaves {W = W} (length s)) (parse_power t (4 * length s + 2) s) _ _
        (λ (v, r). terms v r)
        (parse_power-Leaves t (4 * length s + 2) (s) (length (s)) (length s) (omega arith)
          (omega arith) (omega arith))
        (parse_power-same t ((4 * length s + 2)) (suc (4 * length (s) + 1)) s (length (s))
          (omega arith) (omega arith) (omega arith))
        (λ (v, r) q.
          term_loop-same t ((4 * length s + 2)) (suc (4 * length (r))) v r (length (r))
            (omega arith) (omega arith) (omega arith))

  pub terms_lem :
      (val : W) (s : List ℕ)
      → terms val s ≡ (
          let s = skip b' ' s in
          if head s == b'/' && head (tail s) == b'/'
          then (power (tail (tail s)) >>= λ (v, r). terms (d.of_int (d.to_int (d.div val v))) r)
          else if head s == b'*' || head s == b'/' || head s == b'%'
          then (power (tail s) >>= λ (v, r). combine (head s) val v >>= λ next. terms next r)
          else ok (val, s))
  unfolding term_loop
  terms_lem val s =
      let s' = skip b' ' s in
      let short : length s' ≤ length s = length-skip b' ' s in
      if_cong (head s' == b'/' && head (tail s') == b'/') _ _ _ _
        (λ op.
          let less = shorter_whole s' op in
          bind_cong (Leaves {W = W} (length s' - 1)) (parse_power t (4 * length s) (tail (tail s')))
            _ _ _
            (parse_power-Leaves t (4 * length s) (tail (tail s')) (length (tail (tail s')))
              (length s' - 1) (omega arith) (omega arith) (omega arith))
            (parse_power-same t ((4 * length s)) (suc (4 * length (tail (tail s')) + 1))
              (tail (tail s')) (length (tail (tail s'))) (omega arith) (omega arith) (omega arith))
            (λ (v, r) q.
              term_loop-same t ((4 * length s)) (suc (4 * length (r)))
                (d.of_int (d.to_int (d.div val v))) r (length (r)) (omega arith) (omega arith)
                (omega arith)))
        λ _.
          if_cong (head s' == b'*' || head s' == b'/' || head s' == b'%') _ _ _ _
            (λ op.
              let less = shorter_term s' op in
              bind_cong (Leaves {W = W} (length s' - 1)) (parse_power t (4 * length s) (tail s')) _
                _ _
                (parse_power-Leaves t (4 * length s) (tail s') (length (tail s')) (length s' - 1)
                  (omega arith) (omega arith) (omega arith))
                (parse_power-same t ((4 * length s)) (suc (4 * length (tail s') + 1)) (tail s')
                  (length (tail s')) (omega arith) (omega arith) (omega arith))
                (λ (v, r) q.
                  bind_cong _ (combine (head s') val v) _ _ _ (combine-Ensures (head s') val v) refl
                    λ next _.
                      term_loop-same t ((4 * length s)) (suc (4 * length (r))) next r (length (r))
                        (omega arith) (omega arith) (omega arith)))
            (λ _. refl)

  pub expr_lem : (s : List ℕ) → expr s ≡ (term s >>= λ (v, r). sums v r)
  unfolding parse_expr
  expr_lem s =
      bind_cong (Leaves {W = W} (length s)) (parse_term t (4 * length s + 3) s) _ _
        (λ (v, r). sums v r)
        (parse_term-Leaves t (4 * length s + 3) (s) (length (s)) (length s) (omega arith)
          (omega arith) (omega arith))
        (parse_term-same t ((4 * length s + 3)) (suc (4 * length (s) + 2)) s (length (s))
          (omega arith) (omega arith) (omega arith))
        (λ (v, r) q.
          expr_loop-same t ((4 * length s + 3)) (suc (4 * length (r))) v r (length (r))
            (omega arith) (omega arith) (omega arith))

  pub sums_lem :
      (val : W) (s : List ℕ)
      → sums val s ≡ (
          let s = skip b' ' s in
          if head s == b'+' || head s == b'-'
          then (term (tail s) >>= λ (v, r).
              sums (if head s == b'+' then d.add val v else d.sub val v) r)
          else ok (val, s))
  unfolding expr_loop
  sums_lem val s =
      let s' = skip b' ' s in
      let short : length s' ≤ length s = length-skip b' ' s in
      if_cong (head s' == b'+' || head s' == b'-') _ _ _ _
        (λ op.
          let less = shorter_sum s' op in
          bind_cong (Leaves {W = W} (length s' - 1)) (parse_term t (4 * length s) (tail s')) _ _ _
            (parse_term-Leaves t (4 * length s) (tail s') (length (tail s')) (length s' - 1)
              (omega arith) (omega arith) (omega arith))
            (parse_term-same t ((4 * length s)) (suc (4 * length (tail s') + 2)) (tail s')
              (length (tail s')) (omega arith) (omega arith) (omega arith))
            (λ (v, r) q.
              expr_loop-same t ((4 * length s)) (suc (4 * length (r)))
                (if head s' == b'+' then d.add val v else d.sub val v) r (length (r)) (omega arith)
                (omega arith) (omega arith)))
        (λ _. refl)
