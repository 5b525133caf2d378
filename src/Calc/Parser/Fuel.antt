-- ===== src/Calc/Parser/Fuel.antt =====
-- The fuel of `parse_and_calc_double` is enough: each call leaves no more text than it was given,
-- and a call inside a loop or a parenthesis is made on less.
use calculatoros.Prelude.{
  ℕ, zero, suc, ◌+◌, ◌-◌, ◌*◌, ◌<◌, ◌≤◌, ◌≡◌, ◌≢◌, subst, Bool, true, false, ◌&&◌, ◌||◌, Option,
  none, some, List, [], ◌∷◌, ◌==◌, leb, arith, if◌then◌else◌, length,
}
use calculatoros.Prelude.Int.{ℤ}
use calculatoros.CString.{head, tail, skip}
use calculatoros.Number.{is_digit}
use calculatoros.Calc.{Double}
use calculatoros.Calc.Numbers.{pow}
use calculatoros.Calc.Outcome.{out_of_fuel, Ensures, Ensures-bind, Ensures-if}
use calculatoros.Calc.Vars.{Vars}
use calculatoros.Calc.Parser.{
  is_letter, letters, after_letters, after_number, atom, rounded, combine, remainder, parse_factor,
  parse_power, power_loop, parse_term, term_loop, parse_expr, expr_loop, enough,
  parse_and_calc_double,
}

pub length-skip : (c : ℕ) (s : List ℕ) → length (skip c s) ≤ length s
unfolding skip
length-skip c [] = omega arith
length-skip c (e ∷ s) = ground (arith, length-skip c s)

length-after_letters : (s : List ℕ) → length (after_letters s) ≤ length s
unfolding after_letters
length-after_letters [] = omega arith
length-after_letters (c ∷ s) = ground (arith, length-after_letters s)

length-after_number : (s : List ℕ) → length (after_number s) ≤ length s
unfolding after_number
length-after_number [] = omega arith
length-after_number (c ∷ s) = ground (arith, length-after_number s)

pub length-tail : (s : List ℕ) → length (tail s) ≤ length s
length-tail [] = omega arith
length-tail (c ∷ s) = omega arith

pub tail_shorter : (s : List ℕ) (c : ℕ) → 0 < c → (head s == c) ≡ true → length (tail s) < length s
tail_shorter [] c l h = ground arith
tail_shorter (e ∷ s) c l h = omega arith

module _ {W : Type 0} where
  -- At most `n` bytes are left.
  abbrev pub Leaves : ℕ → W × List ℕ → Type 0
  Leaves n r = length r.1 ≤ n

module _ {W : Type 0} ⦃d : Double W⦄ where
  pub atom-Leaves :
      (t : Vars W) (s : List ℕ) (n : ℕ) → length s ≤ n → Ensures (Leaves {W = W} n) (atom t s)
  unfolding atom
  atom-Leaves t s n h =
      Ensures-if _ (is_digit (head s)) _ _ (λ e. omega (arith, length-after_number s))
        λ e.
          Ensures-if _ (is_letter (head s)) _ _
            (λ e.
              Ensures-if _ (leb (length (letters s)) 15) _ _
                (λ e. omega (arith, length-skip b' ' (after_letters s), length-after_letters s))
                (λ e. tt))
            (λ e. h)

  pub combine-Ensures : (op : ℕ) (val rhs : W) → Ensures (λ (w : W). Unit) (combine op val rhs)
  unfolding combine
  combine-Ensures op val rhs =
      Ensures-if _ (op == b'*') _ _ (λ e. tt)
        λ e. Ensures-if _ (op == b'/') _ _ (λ e. tt) (λ e. remainder-Ensures (remainder _ _))
    where
      remainder-Ensures : (r : Option ℤ) → Ensures (λ (w : W). Unit) (rounded r)
      remainder-Ensures none = tt
      remainder-Ensures (some n) = tt

-- A byte that is an operator is there.
pub shorter_power : (s : List ℕ) → (head s == b'^') ≡ true → length (tail s) < length s
shorter_power [] e = cc
shorter_power (c ∷ s) e = omega arith

pub shorter_whole :
    (s : List ℕ)
    → (head s == b'/' && head (tail s) == b'/') ≡ true
    → length (tail (tail s)) < length s
shorter_whole [] e = cc
shorter_whole (c ∷ s) e = omega (arith, length-tail s)

pub shorter_term :
    (s : List ℕ)
    → (head s == b'*' || head s == b'/' || head s == b'%') ≡ true
    → length (tail s) < length s
shorter_term [] e = cc
shorter_term (c ∷ s) e = omega arith

pub shorter_sum :
    (s : List ℕ) → (head s == b'+' || head s == b'-') ≡ true → length (tail s) < length s
shorter_sum [] e = cc
shorter_sum (c ∷ s) e = omega arith

pub shorter_minus : (s : List ℕ) → (head s == b'-') ≡ true → length (tail s) < length s
shorter_minus [] e = cc
shorter_minus (c ∷ s) e = omega arith

pub shorter_open : (s : List ℕ) → (head s == b'(') ≡ true → length (tail s) < length s
shorter_open [] e = cc
shorter_open (c ∷ s) e = omega arith

module _ {W : Type 0} ⦃d : Double W⦄ (t : Vars W) where
  close_le : (s : List ℕ) (b : Bool) → length (if b then tail s else s) ≤ length s
  close_le s true = length-tail s
  close_le s false = omega arith

  -- The fuel that each function needs for a text of `m` bytes.
  mutual
    unfolding parse_factor parse_power power_loop parse_term term_loop parse_expr expr_loop

    pub parse_factor-Leaves :
        (f : ℕ) (s : List ℕ) (m n : ℕ)
        → length s ≤ m
        → m ≤ n
        → 4 * m < f
        → Ensures (Leaves {W = W} n) (parse_factor t f s)
    parse_factor-Leaves zero s m n h l e = absurd (omega arith)
    parse_factor-Leaves (suc f) s m n h l e =
        let s' = skip b' ' s in
        let short : length s' ≤ m = omega (arith, length-skip b' ' s) in
        Ensures-if _ (head s' == b'-') _ _
          (λ op.
            let less = shorter_minus s' op in
            Ensures-bind (Leaves {W = W} (m - 1)) _ (parse_factor t f (tail s')) _
              (parse_factor-Leaves f (tail s') (m - 1) (m - 1) (omega arith) (omega arith)
                (omega arith))
              (λ (v, r) q. omega arith))
          λ _.
            Ensures-if _ (head s' == b'(') _ _
              (λ op.
                let less = shorter_open s' op in
                Ensures-bind (Leaves {W = W} (m - 1)) _ (parse_expr t f (tail s')) _
                  (parse_expr-Leaves f (tail s') (m - 1) (m - 1) (omega arith) (omega arith)
                    (omega arith))
                  (λ (v, r) q. omega (arith, close_le r (head r == b')'))))
              (λ _. atom-Leaves t s' n (omega arith))

    pub parse_power-Leaves :
        (f : ℕ) (s : List ℕ) (m n : ℕ)
        → length s ≤ m
        → m ≤ n
        → 4 * m + 1 < f
        → Ensures (Leaves {W = W} n) (parse_power t f s)
    parse_power-Leaves zero s m n h l e = absurd (omega arith)
    parse_power-Leaves (suc f) s m n h l e =
        Ensures-bind (Leaves {W = W} m) _ (parse_factor t f s) _
          (parse_factor-Leaves f s m m h (omega arith) (omega arith))
          (λ (v, r) q. power_loop-Leaves f v r m n q l (omega arith))

    pub power_loop-Leaves :
        (f : ℕ) (val : W) (s : List ℕ) (m n : ℕ)
        → length s ≤ m
        → m ≤ n
        → 4 * m < f
        → Ensures (Leaves {W = W} n) (power_loop t f val s)
    power_loop-Leaves zero val s m n h l e = absurd (omega arith)
    power_loop-Leaves (suc f) val s m n h l e =
        let s' = skip b' ' s in
        let short : length s' ≤ m = omega (arith, length-skip b' ' s) in
        Ensures-if _ (head s' == b'^') _ _
          (λ op.
            let less = shorter_power s' op in
            Ensures-bind (Leaves {W = W} (m - 1)) _ (parse_factor t f (tail s')) _
              (parse_factor-Leaves f (tail s') (m - 1) (m - 1) (omega arith) (omega arith)
                (omega arith))
              (λ (v, r) q.
                power_loop-Leaves f (pow val v) r (m - 1) n q (omega arith) (omega arith)))
          (λ _. omega arith)

    pub parse_term-Leaves :
        (f : ℕ) (s : List ℕ) (m n : ℕ)
        → length s ≤ m
        → m ≤ n
        → 4 * m + 2 < f
        → Ensures (Leaves {W = W} n) (parse_term t f s)
    parse_term-Leaves zero s m n h l e = absurd (omega arith)
    parse_term-Leaves (suc f) s m n h l e =
        Ensures-bind (Leaves {W = W} m) _ (parse_power t f s) _
          (parse_power-Leaves f s m m h (omega arith) (omega arith))
          (λ (v, r) q. term_loop-Leaves f v r m n q l (omega arith))

    pub term_loop-Leaves :
        (f : ℕ) (val : W) (s : List ℕ) (m n : ℕ)
        → length s ≤ m
        → m ≤ n
        → 4 * m < f
        → Ensures (Leaves {W = W} n) (term_loop t f val s)
    term_loop-Leaves zero val s m n h l e = absurd (omega arith)
    term_loop-Leaves (suc f) val s m n h l e =
        let s' = skip b' ' s in
        let short : length s' ≤ m = omega (arith, length-skip b' ' s) in
        Ensures-if _ (head s' == b'/' && head (tail s') == b'/') _ _
          (λ op.
            let less = shorter_whole s' op in
            Ensures-bind (Leaves {W = W} (m - 1)) _ (parse_power t f (tail (tail s'))) _
              (parse_power-Leaves f (tail (tail s')) (m - 1) (m - 1) (omega arith) (omega arith)
                (omega arith))
              (λ (v, r) q.
                term_loop-Leaves f (d.of_int (d.to_int (d.div val v))) r (m - 1) n q (omega arith)
                  (omega arith)))
          λ _.
            Ensures-if _ (head s' == b'*' || head s' == b'/' || head s' == b'%') _ _
              (λ op.
                let less = shorter_term s' op in
                Ensures-bind (Leaves {W = W} (m - 1)) _ (parse_power t f (tail s')) _
                  (parse_power-Leaves f (tail s') (m - 1) (m - 1) (omega arith) (omega arith)
                    (omega arith))
                  (λ (v, r) q.
                    Ensures-bind _ _ (combine (head s') val v) _ (combine-Ensures (head s') val v)
                      λ next _. term_loop-Leaves f next r (m - 1) n q (omega arith) (omega arith)))
              (λ _. omega arith)

    pub parse_expr-Leaves :
        (f : ℕ) (s : List ℕ) (m n : ℕ)
        → length s ≤ m
        → m ≤ n
        → 4 * m + 3 < f
        → Ensures (Leaves {W = W} n) (parse_expr t f s)
    parse_expr-Leaves zero s m n h l e = absurd (omega arith)
    parse_expr-Leaves (suc f) s m n h l e =
        Ensures-bind (Leaves {W = W} m) _ (parse_term t f s) _
          (parse_term-Leaves f s m m h (omega arith) (omega arith))
          (λ (v, r) q. expr_loop-Leaves f v r m n q l (omega arith))

    pub expr_loop-Leaves :
        (f : ℕ) (val : W) (s : List ℕ) (m n : ℕ)
        → length s ≤ m
        → m ≤ n
        → 4 * m < f
        → Ensures (Leaves {W = W} n) (expr_loop t f val s)
    expr_loop-Leaves zero val s m n h l e = absurd (omega arith)
    expr_loop-Leaves (suc f) val s m n h l e =
        let s' = skip b' ' s in
        let short : length s' ≤ m = omega (arith, length-skip b' ' s) in
        Ensures-if _ (head s' == b'+' || head s' == b'-') _ _
          (λ op.
            let less = shorter_sum s' op in
            Ensures-bind (Leaves {W = W} (m - 1)) _ (parse_term t f (tail s')) _
              (parse_term-Leaves f (tail s') (m - 1) (m - 1) (omega arith) (omega arith)
                (omega arith))
              (λ (v, r) q.
                expr_loop-Leaves f (if head s' == b'+' then d.add val v else d.sub val v) r (m - 1)
                  n q (omega arith) (omega arith)))
          (λ _. omega arith)

module _ {W : Type 0} ⦃d : Double W⦄ where
  -- For every input and every table of variables, the parser ends: it returns a result, or stops at
  -- a division error or at a name that overruns its buffer.
  pub parse_and_calc_double_ends :
      (t : Vars W) (input : List ℕ) → parse_and_calc_double t input ≢ out_of_fuel
  unfolding parse_and_calc_double
  parse_and_calc_double_ends t input e = subst (Ensures (λ (r : W × Bool). Unit)) e (
      Ensures-bind (Leaves {W = W} (length input)) _ (parse_expr t (enough input) input) _
        (parse_expr-Leaves t (enough input) input (length input) (length input) (omega arith)
          (omega arith) (omega arith))
        (λ r q. tt))
