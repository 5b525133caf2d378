-- ===== src/Calc/Parser/Same.antt =====
-- More fuel than enough changes nothing.
use calculatoros.Prelude.{
  ℕ, zero, suc, ◌+◌, ◌-◌, ◌*◌, ◌<◌, ◌≤◌, ◌≡◌, refl, ◌&&◌, ◌||◌, List, ◌==◌, arith, if◌then◌else◌,
  length,
}
use calculatoros.CString.{head, tail, skip}
use calculatoros.Calc.{Double}
use calculatoros.Calc.Numbers.{pow}
use calculatoros.Calc.Outcome.{bind_cong, if_cong}
use calculatoros.Calc.Vars.{Vars}
use calculatoros.Calc.Parser.{
  combine, parse_factor, parse_power, power_loop, parse_term, term_loop, parse_expr, expr_loop,
}
use calculatoros.Calc.Parser.Fuel.{
  length-skip, Leaves, combine-Ensures, shorter_power, shorter_whole, shorter_term, shorter_sum,
  shorter_minus, shorter_open, parse_factor-Leaves, parse_power-Leaves, parse_term-Leaves,
  parse_expr-Leaves,
}

module _ {W : Type 0} ⦃d : Double W⦄ (t : Vars W) where
  mutual
    unfolding parse_factor parse_power power_loop parse_term term_loop parse_expr expr_loop

    pub parse_factor-same :
        (f g : ℕ) (s : List ℕ) (m : ℕ)
        → length s ≤ m
        → 4 * m < f
        → 4 * m < g
        → parse_factor t f s ≡ parse_factor t g s
    parse_factor-same zero g s m h e e' = absurd (omega arith)
    parse_factor-same (suc f) zero s m h e e' = absurd (omega arith)
    parse_factor-same (suc f) (suc g) s m h e e' =
        let s' = skip b' ' s in
        let short : length s' ≤ m = omega (arith, length-skip b' ' s) in
        if_cong (head s' == b'-') _ _ _ _
          (λ op.
            let less = shorter_minus s' op in
            bind_cong (Leaves {W = W} (m - 1)) (parse_factor t f (tail s')) _ _ _
              (parse_factor-Leaves t f (tail s') (m - 1) (m - 1) (omega arith) (omega arith)
                (omega arith))
              (parse_factor-same f g (tail s') (m - 1) (omega arith) (omega arith) (omega arith))
              (λ a q. refl))
          λ _.
            if_cong (head s' == b'(') _ _ _ _
              (λ op.
                let less = shorter_open s' op in
                bind_cong (Leaves {W = W} (m - 1)) (parse_expr t f (tail s')) _ _ _
                  (parse_expr-Leaves t f (tail s') (m - 1) (m - 1) (omega arith) (omega arith)
                    (omega arith))
                  (parse_expr-same f g (tail s') (m - 1) (omega arith) (omega arith) (omega arith))
                  (λ a q. refl))
              (λ _. refl)

    pub parse_power-same :
        (f g : ℕ) (s : List ℕ) (m : ℕ)
        → length s ≤ m
        → 4 * m + 1 < f
        → 4 * m + 1 < g
        → parse_power t f s ≡ parse_power t g s
    parse_power-same zero g s m h e e' = absurd (omega arith)
    parse_power-same (suc f) zero s m h e e' = absurd (omega arith)
    parse_power-same (suc f) (suc g) s m h e e' =
        bind_cong (Leaves {W = W} m) (parse_factor t f s) _ _ _
          (parse_factor-Leaves t f (s) m m (omega arith) (omega arith) (omega arith))
          (parse_factor-same f g s m h (omega arith) (omega arith))
          (λ (v, r) q. power_loop-same f g v r m q (omega arith) (omega arith))

    pub power_loop-same :
        (f g : ℕ) (val : W) (s : List ℕ) (m : ℕ)
        → length s ≤ m
        → 4 * m < f
        → 4 * m < g
        → power_loop t f val s ≡ power_loop t g val s
    power_loop-same zero g val s m h e e' = absurd (omega arith)
    power_loop-same (suc f) zero val s m h e e' = absurd (omega arith)
    power_loop-same (suc f) (suc g) val s m h e e' =
        let s' = skip b' ' s in
        let short : length s' ≤ m = omega (arith, length-skip b' ' s) in
        if_cong (head s' == b'^') _ _ _ _
          (λ op.
            let less = shorter_power s' op in
            bind_cong (Leaves {W = W} (m - 1)) (parse_factor t f (tail s')) _ _ _
              (parse_factor-Leaves t f (tail s') (m - 1) (m - 1) (omega arith) (omega arith)
                (omega arith))
              (parse_factor-same f g (tail s') (m - 1) (omega arith) (omega arith) (omega arith))
              (λ (v, r) q. power_loop-same f g (pow val v) r (m - 1) q (omega arith) (omega arith)))
          (λ _. refl)

    pub parse_term-same :
        (f g : ℕ) (s : List ℕ) (m : ℕ)
        → length s ≤ m
        → 4 * m + 2 < f
        → 4 * m + 2 < g
        → parse_term t f s ≡ parse_term t g s
    parse_term-same zero g s m h e e' = absurd (omega arith)
    parse_term-same (suc f) zero s m h e e' = absurd (omega arith)
    parse_term-same (suc f) (suc g) s m h e e' =
        bind_cong (Leaves {W = W} m) (parse_power t f s) _ _ _
          (parse_power-Leaves t f (s) m m (omega arith) (omega arith) (omega arith))
          (parse_power-same f g s m h (omega arith) (omega arith))
          (λ (v, r) q. term_loop-same f g v r m q (omega arith) (omega arith))

    pub term_loop-same :
        (f g : ℕ) (val : W) (s : List ℕ) (m : ℕ)
        → length s ≤ m
        → 4 * m < f
        → 4 * m < g
        → term_loop t f val s ≡ term_loop t g val s
    term_loop-same zero g val s m h e e' = absurd (omega arith)
    term_loop-same (suc f) zero val s m h e e' = absurd (omega arith)
    term_loop-same (suc f) (suc g) val s m h e e' =
        let s' = skip b' ' s in
        let short : length s' ≤ m = omega (arith, length-skip b' ' s) in
        if_cong (head s' == b'/' && head (tail s') == b'/') _ _ _ _
          (λ op.
            let less = shorter_whole s' op in
            bind_cong (Leaves {W = W} (m - 1)) (parse_power t f (tail (tail s'))) _ _ _
              (parse_power-Leaves t f (tail (tail s')) (m - 1) (m - 1) (omega arith) (omega arith)
                (omega arith))
              (parse_power-same f g (tail (tail s')) (m - 1) (omega arith) (omega arith)
                (omega arith))
              (λ (v, r) q.
                term_loop-same f g (d.of_int (d.to_int (d.div val v))) r (m - 1) q (omega arith)
                  (omega arith)))
          λ _.
            if_cong (head s' == b'*' || head s' == b'/' || head s' == b'%') _ _ _ _
              (λ op.
                let less = shorter_term s' op in
                bind_cong (Leaves {W = W} (m - 1)) (parse_power t f (tail s')) _ _ _
                  (parse_power-Leaves t f (tail s') (m - 1) (m - 1) (omega arith) (omega arith)
                    (omega arith))
                  (parse_power-same f g (tail s') (m - 1) (omega arith) (omega arith) (omega arith))
                  (λ (v, r) q.
                    bind_cong _ (combine (head s') val v) _ _ _ (combine-Ensures (head s') val v)
                      refl
                      λ next _. term_loop-same f g next r (m - 1) q (omega arith) (omega arith)))
              (λ _. refl)

    pub parse_expr-same :
        (f g : ℕ) (s : List ℕ) (m : ℕ)
        → length s ≤ m
        → 4 * m + 3 < f
        → 4 * m + 3 < g
        → parse_expr t f s ≡ parse_expr t g s
    parse_expr-same zero g s m h e e' = absurd (omega arith)
    parse_expr-same (suc f) zero s m h e e' = absurd (omega arith)
    parse_expr-same (suc f) (suc g) s m h e e' =
        bind_cong (Leaves {W = W} m) (parse_term t f s) _ _ _
          (parse_term-Leaves t f (s) m m (omega arith) (omega arith) (omega arith))
          (parse_term-same f g s m h (omega arith) (omega arith))
          (λ (v, r) q. expr_loop-same f g v r m q (omega arith) (omega arith))

    pub expr_loop-same :
        (f g : ℕ) (val : W) (s : List ℕ) (m : ℕ)
        → length s ≤ m
        → 4 * m < f
        → 4 * m < g
        → expr_loop t f val s ≡ expr_loop t g val s
    expr_loop-same zero g val s m h e e' = absurd (omega arith)
    expr_loop-same (suc f) zero val s m h e e' = absurd (omega arith)
    expr_loop-same (suc f) (suc g) val s m h e e' =
        let s' = skip b' ' s in
        let short : length s' ≤ m = omega (arith, length-skip b' ' s) in
        if_cong (head s' == b'+' || head s' == b'-') _ _ _ _
          (λ op.
            let less = shorter_sum s' op in
            bind_cong (Leaves {W = W} (m - 1)) (parse_term t f (tail s')) _ _ _
              (parse_term-Leaves t f (tail s') (m - 1) (m - 1) (omega arith) (omega arith)
                (omega arith))
              (parse_term-same f g (tail s') (m - 1) (omega arith) (omega arith) (omega arith))
              (λ (v, r) q.
                expr_loop-same f g (if head s' == b'+' then d.add val v else d.sub val v) r (m - 1)
                  q (omega arith) (omega arith)))
          (λ _. refl)
