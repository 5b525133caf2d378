-- ===== src/Calc/Parser.antt =====
-- kernel.c: the recursive descent of the calculator, `parse_factor` to `parse_and_calc_double`. The
-- text from `*i` on is the list of its bytes.
pub mod Fuel
pub mod Same
pub mod Equations
use calculatoros.Prelude.{
  ℕ, zero, suc, ◌+◌, ◌*◌, ◌%◌, Bool, true, false, ◌&&◌, ◌||◌, not, Option, none, some, List, [],
  ◌∷◌, ◌==◌, leb, if◌then◌else◌, length,
}
use calculatoros.Prelude.Int.{ℤ, pos, negsuc}
use calculatoros.CString.{head, tail, skip}
use calculatoros.Number.{is_digit}
use calculatoros.Calc.{Double}
use calculatoros.Calc.Numbers.{int_max, of_nat, parse_double, pow, negated}
use calculatoros.Calc.Outcome.{Outcome, ok, divide_error, overrun, out_of_fuel, ◌>>=◌}
use calculatoros.Calc.Vars.{Vars, get_var_double}

-- `a % b`, rounded towards 0. `none` is the exception of a division by 0 or of the least `int` by -1.
unfoldable pub remainder : ℤ → ℤ → Option ℤ
unfolding negated
remainder a (pos zero) = none
remainder (pos m) (pos (suc k)) = some (pos (m % suc k))
remainder (pos m) (negsuc k) = some (pos (m % suc k))
remainder (negsuc m) (pos (suc k)) = some (negated (pos (suc m % suc k)))
remainder (negsuc m) (negsuc k) =
    if suc m == int_max && k == 0 then none else some (negated (pos (suc m % suc k)))

abbrev pub is_letter : ℕ → Bool
is_letter c = leb b'a' c && leb c b'z' || leb b'A' c && leb c b'Z'

-- The letters of a name, and what follows them.
unfoldable pub letters : List ℕ → List ℕ
letters [] = []
letters (c ∷ s) = if is_letter c then c ∷ letters s else []

unfoldable pub after_letters : List ℕ → List ℕ
after_letters [] = []
after_letters (c ∷ s) = if is_letter c then after_letters s else c ∷ s

unfoldable pub after_number : List ℕ → List ℕ
after_number [] = []
after_number (c ∷ s) = if is_digit c || c == b'.' then after_number s else c ∷ s

abbrev pub is_end : List ℕ → Bool
is_end s = head s == 0

-- Four calls for each byte, and four at the end of the text.
abbrev pub enough : List ℕ → ℕ
enough s = 4 * length s + 4

module _ {W : Type 0} ⦃d : Double W⦄ where
  -- A number, a variable, or 0 where there is neither.
  unfoldable pub atom : Vars W → List ℕ → Outcome (W × List ℕ)
  atom t s =
      if is_digit (head s)
      then ok (parse_double s, after_number s)
      else if is_letter (head s)
      then (if leb (length (letters s)) 15
          then ok (get_var_double (letters s) t, skip b' ' (after_letters s))
          else overrun)
      else ok (of_nat 0, s)

  unfoldable pub rounded : Option ℤ → Outcome W
  rounded none = divide_error
  rounded (some n) = ok (d.of_int n)

  -- The operators of `parse_term`, but for `//`.
  unfoldable pub combine : ℕ → W → W → Outcome W
  unfolding rounded
  combine op val rhs =
      if op == b'*'
      then ok (d.mul val rhs)
      else if op == b'/'
      then ok (d.div val rhs)
      else rounded (remainder (d.to_int val) (d.to_int rhs))

  abbrev pub closed : W × List ℕ → Outcome (W × List ℕ)
  closed (val, s) = ok (val, if head s == b')' then tail s else s)

  abbrev pub opposite : W × List ℕ → Outcome (W × List ℕ)
  opposite (val, s) = ok (d.neg val, s)

-- What a call leaves is no part of the text by its form, so each call costs a unit of fuel.
module _ {W : Type 0} ⦃d : Double W⦄ (t : Vars W) where
  unfoldable mutual
    pub parse_factor : ℕ → List ℕ → Outcome (W × List ℕ)
    parse_factor zero s = out_of_fuel
    parse_factor (suc f) s =
        let s = skip b' ' s in
        let minus = parse_factor f (tail s) >>= opposite in
        let inner = parse_expr f (tail s) >>= closed in
        if head s == b'-' then minus else if head s == b'(' then inner else atom t s

    pub parse_power : ℕ → List ℕ → Outcome (W × List ℕ)
    parse_power zero s = out_of_fuel
    parse_power (suc f) s = parse_factor f s >>= λ (val, r). power_loop f val r

    pub power_loop : ℕ → W → List ℕ → Outcome (W × List ℕ)
    power_loop zero val s = out_of_fuel
    power_loop (suc f) val s =
        let s = skip b' ' s in
        let more = parse_factor f (tail s) >>= λ (rhs, r). power_loop f (pow val rhs) r in
        if head s == b'^' then more else ok (val, s)

    pub parse_term : ℕ → List ℕ → Outcome (W × List ℕ)
    parse_term zero s = out_of_fuel
    parse_term (suc f) s = parse_power f s >>= λ (val, r). term_loop f val r

    pub term_loop : ℕ → W → List ℕ → Outcome (W × List ℕ)
    term_loop zero val s = out_of_fuel
    term_loop (suc f) val s =
        let s = skip b' ' s in
        let op = head s in
        let whole = parse_power f (tail (tail s)) >>= λ (rhs, r).
        term_loop f (d.of_int (d.to_int (d.div val rhs))) r in
        let more = parse_power f (tail s) >>= λ (rhs, r).
        combine op val rhs >>= λ next. term_loop f next r in
        if op == b'/' && head (tail s) == b'/'
        then whole
        else if op == b'*' || op == b'/' || op == b'%'
        then more
        else ok (val, s)

    pub parse_expr : ℕ → List ℕ → Outcome (W × List ℕ)
    parse_expr zero s = out_of_fuel
    parse_expr (suc f) s = parse_term f s >>= λ (left, r). expr_loop f left r

    pub expr_loop : ℕ → W → List ℕ → Outcome (W × List ℕ)
    expr_loop zero left s = out_of_fuel
    expr_loop (suc f) left s =
        let s = skip b' ' s in
        let more = parse_term f (tail s) >>= λ (right, r).
        expr_loop f (if head s == b'+' then d.add left right else d.sub left right) r in
        if head s == b'+' || head s == b'-' then more else ok (left, s)

  -- The result, and whether the whole input was read.
  unfoldable pub parse_and_calc_double : List ℕ → Outcome (W × Bool)
  parse_and_calc_double input =
      parse_expr (enough input) input >>= λ (val, r). ok (val, is_end (skip b' ' r))
