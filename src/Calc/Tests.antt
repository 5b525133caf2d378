-- ===== src/Calc/Tests.antt =====
-- Runs of the calculator, on integers in place of `double`.
use calculatoros.Prelude.{
  ◌++◌, ℕ, ◌≡◌, ◌≢◌, refl, true, none, some, List, [], ◌==◌, arith, if◌then◌else◌,
}
use calculatoros.Prelude.Int.{ℤ, pos, negsuc, ◌+ℤ◌, ◌-ℤ◌, ◌*ℤ◌}
use calculatoros.CString.{ascii, streq, skip, skip_to}
use calculatoros.Number.{print_dec, dec_loop}
use calculatoros.Calc.Exact.{int_double, int_double-IsExact}
use calculatoros.Calc.Numbers.{whole_part, with_fraction, parse_double, print_double}
use calculatoros.Calc.Numbers.Text.{print_double-of_int}
use calculatoros.Calc.Outcome.{ok, divide_error, out_of_fuel, ◌>>=◌}
use calculatoros.Calc.Vars.{
  cmd_echo, Variable, Vars, type_int, has_dot, find_from, find_var, assigned, set_at, set_var,
  delete_var, number_of, get_var_double,
}
use calculatoros.Calc.Vars.Map.{read, IsTable}
use calculatoros.Calc.Vars.Set.{parsed, set_var-IsSet}
use calculatoros.Calc.Vars.Delete.{delete_var-IsDeleted}
use calculatoros.Calc.Command.{cmd_var, assigned_text, var_word}
use calculatoros.Calc.Command.Laws.{cmd_var-set_var, cmd_echo_long}
use calculatoros.Calc.Parser.{
  atom, after_number, remainder, rounded, combine, parse_factor, parse_power, power_loop,
  parse_term, term_loop, parse_expr, parse_and_calc_double,
}
use calculatoros.Calc.Parser.Fuel.{parse_and_calc_double_ends}
use calculatoros.Calc.Syntax.{
  Literal, Name, Sum, num, var, group, base, one, product, only, sum, times, modulo, less,
  write_factor, write_power, write_product, write_sum, factor_value, power_value, product_value,
  sum_value,
}
use calculatoros.Calc.Whole.{parse_and_calc_double-write_sum}

print_double-of_int_example : print_double (negsuc 11) ≡ ascii "-12.00"
unfolding print_dec dec_loop
print_double-of_int_example = print_double-of_int int_double-IsExact (negsuc 11) (omega arith)

abbrev unset : Variable ℤ
unset = record { name = []; type = type_int; i_val = pos 0; d_val = pos 0; s_val = [] }

abbrev no_vars : Vars ℤ
no_vars = record { vars = λ _. unset; var_count = 0 }

abbrev seven : Variable ℤ
seven = record unset { name = ascii "n"; i_val = pos 7 }

abbrev one_var : Vars ℤ
one_var = record { vars = λ i. seven; var_count = 1 }

one_var-IsTable : IsTable one_var
one_var-IsTable = record {
  count_le = omega arith;
  short = λ i l. omega arith;
  distinct = λ i j l m e. omega arith;
}

abbrev set_n : Vars ℤ
set_n = record one_var { vars = λ j. if j == 0 then record seven { i_val = pos 12 } else seven }

set_n_lem : set_var (ascii "n") (ascii "12") one_var ≡ some set_n
unfolding set_var find_var find_from streq set_at assigned has_dot parse_double whole_part
    with_fraction ◌+ℤ◌ ◌*ℤ◌
set_n_lem = refl

set_var-IsSet_example :
    IsTable set_n
    × ((n : List ℕ)
        → read n set_n
          ≡ (if streq (ascii "n") n then some (parsed (ascii "12")) else read n one_var))
set_var-IsSet_example =
    set_var-IsSet (ascii "n") (ascii "12") (omega arith) one_var-IsTable set_n_lem

delete_var-IsDeleted_example :
    IsTable (delete_var (ascii "n") one_var)
    × ((n : List ℕ)
        → read n (delete_var (ascii "n") one_var)
          ≡ (if streq (ascii "n") n then none else read n one_var))
delete_var-IsDeleted_example = delete_var-IsDeleted (ascii "n") one_var-IsTable

abbrev long_name : List ℕ
long_name = ascii "abcdefghijklmnopq"

-- The name is cut off after 15 letters, and not found again.
abbrev cut : Vars ℤ
cut = record {
  vars =
      λ j. if j == 1 then record seven { name = ascii "abcdefghijklmno"; i_val = pos 1 } else seven;
  var_count = 2;
}

cut_lem : cmd_var (long_name ++ ascii " = 1") one_var ≡ some cut
unfolding cmd_var assigned_text var_word skip skip_to set_var find_var find_from streq set_at
    assigned has_dot parse_double whole_part with_fraction ◌+ℤ◌ ◌*ℤ◌
cut_lem = refl

cmd_var-set_var_example :
    cmd_var (ascii "n = 12") one_var ≡ set_var (ascii "n") (ascii "12") one_var
cmd_var-set_var_example = cmd_var-set_var 0 1 1 (ascii "n") (ascii "12") one_var refl refl refl

cmd_echo_long_example : cmd_echo long_name cut ≡ ascii "undefined\n"
cmd_echo_long_example =
    cmd_echo_long 0 1 1 long_name (ascii "1") {t = one_var} {t' = cut} one_var-IsTable (omega arith)
      refl refl cut_lem

parse_and_calc_double_ends_example : parse_and_calc_double one_var (ascii "((7 % 0") ≢ out_of_fuel
parse_and_calc_double_ends_example = parse_and_calc_double_ends one_var (ascii "((7 % 0")

abbrev three : Literal
three = record { text = ascii "3"; starts = refl; made = refl }

abbrev four : Literal
four = record { text = ascii "4"; starts = refl; made = refl }

abbrev n_name : Name
n_name = record { text = ascii "n"; starts = refl; made = refl; fits = refl }

-- 4 - 3*n -(4)%3
abbrev sample : Sum
sample =
    sum
      (sum (only (one (base (num 0 four)))) 1 less
        (product (one (base (num 1 three))) 0 times (base (var 0 n_name))))
      1 less
      (product (one (base (group 0 (only (one (base (num 0 four)))) 0))) 0 modulo
        (base (num 0 three)))

sample_text : write_sum sample [] ≡ ascii "4 - 3*n -(4)%3"
unfolding write_sum write_product write_power write_factor
sample_text = refl

sample_value : sum_value one_var sample ≡ ok (negsuc 17)
unfolding sum_value product_value power_value factor_value rounded remainder parse_double whole_part
    with_fraction get_var_double find_var find_from streq number_of ◌+ℤ◌ ◌-ℤ◌ ◌*ℤ◌
sample_value = refl

parse_and_calc_double-write_sum_example :
    parse_and_calc_double one_var (ascii "4 - 3*n -(4)%3 ")
    ≡ (sum_value one_var sample >>= λ v. ok (v, true))
unfolding write_sum write_product write_power write_factor
parse_and_calc_double-write_sum_example = parse_and_calc_double-write_sum one_var sample 1

-- 7 % 0 is a division by 0 for the processor.
by_zero : parse_and_calc_double one_var (ascii "7%0") ≡ divide_error
unfolding parse_and_calc_double parse_expr parse_term parse_power parse_factor atom skip
    after_number power_loop term_loop combine rounded remainder parse_double whole_part
    with_fraction ◌+ℤ◌ ◌*ℤ◌
by_zero = refl
