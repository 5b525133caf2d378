-- ===== src/Calc/Command.antt =====
-- kernel.c: the last branches of `console_func`, `var` and the calculation of a line.
pub mod Laws
use calculatoros.Prelude.{
  ℕ, zero, suc, ◌+◌, ◌-◌, ◌<◌, ◌≤◌, ◌≡◌, ◌≢◌, ◌∙◌, refl, ap, sym, Bool, true, false, not, ◌&&◌,
  ◌||◌, Option, none, some, List, [], ◌∷◌, ◌++◌, ◌==◌, leb, arith, Bool-cases, inl, inr,
  if◌then◌else◌, length, take, length-take,
}
use calculatoros.Prelude.Int.{ℤ, negsuc}
use calculatoros.CString.{ascii, head, tail, skip, skip_to}
use calculatoros.Number.{is_digit}
use calculatoros.Calc.{Double}
use calculatoros.Calc.Numbers.{parse_double, print_double, of_nat}
use calculatoros.Calc.Outcome.{Outcome, ok, ◌>>=◌}
use calculatoros.Calc.Vars.{Vars, set_var, cmd_echo}
use calculatoros.Calc.Parser.{parse_and_calc_double}

-- The bytes up to a space or an equals sign, at most `room`, and what follows them.
unfoldable pub var_word : ℕ → List ℕ → List ℕ × List ℕ
var_word zero s = ([], s)
var_word (suc room) [] = ([], [])
var_word (suc room) (c ∷ s) =
    let (name, rest) = var_word room s in
    if c == b' ' || c == b'=' then ([], c ∷ s) else (c ∷ name, rest)

-- Behind the equals sign and the spaces after it.
unfoldable pub assigned_text : List ℕ → List ℕ
assigned_text s = let s = skip_to b'=' s in skip b' ' (if head s == b'=' then tail s else s)

abbrev pub error_text : List ℕ
error_text = ascii "Error: Invalid expression!\nUse: number +-*/%% number or function\n"

module _ {W : Type 0} ⦃d : Double W⦄ where
  -- The branch of `var`, with the input behind "var ".
  unfoldable pub cmd_var : List ℕ → Vars W → Option (Vars W)
  unfolding assigned_text
  cmd_var s t = let (name, rest) = var_word 15 (skip b' ' s) in set_var name (assigned_text rest) t

  unfoldable pub round_value : W → W
  round_value num = d.of_int (
      if d.lt (of_nat 0) num || d.eq num (of_nat 0)
      then d.to_int (d.add num d.half)
      else d.to_int (d.sub num d.half))

  -- `*result`, where the result is 1.
  unfoldable pub is_round_command : List ℕ → Option W
  unfolding round_value
  is_round_command input =
      let s = skip b' ' input in
      let number = skip b' ' (tail s) in
      if not (head s == b'r') && not (head s == b'R')
      then none
      else if head number == 0
      then none
      else some (round_value (parse_double number))

  abbrev pub result_text : W → List ℕ
  result_text w = ascii "Result: " ++ (print_double w ++ ascii "\n")

  abbrev pub answer : W × Bool → Outcome (List ℕ)
  answer (w, whole) = ok (if whole then result_text w else error_text)

  unfoldable pub calculated : Option W → Vars W → List ℕ → Outcome (List ℕ)
  calculated (some w) t input = ok (result_text w)
  calculated none t input = parse_and_calc_double t input >>= answer

  -- What the last branches print.
  unfoldable pub calculate : Vars W → List ℕ → Outcome (List ℕ)
  calculate t input = calculated (is_round_command input) t input
