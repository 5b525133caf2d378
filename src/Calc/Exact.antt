-- ===== src/Calc/Exact.antt =====
-- Integers as an instance of `Double`: the interface can be met exactly, and the calculator runs.
-- 0.1 and 0.5 become 0; a quotient is rounded towards 0.
use calculatoros.Prelude.{ℕ, suc, ◌+◌, ◌/◌, ◌≡◌, refl, ◌&&◌, ◌==◌, arith, if◌then◌else◌}
use calculatoros.Prelude.Int.{ℤ, pos, negsuc, pos_part, neg_part, ltb_ℤ, ◌+ℤ◌, ◌-ℤ◌, ◌*ℤ◌}
use calculatoros.Calc.{Double}
use calculatoros.Calc.Numbers.Text.{IsExact}

abbrev sized_quotient : ℕ → ℕ → ℕ
sized_quotient a b = if b == 0 then 0 else a / b

abbrev quotient : ℤ → ℤ → ℤ
quotient a b =
    pos (sized_quotient (pos_part a) (pos_part b) + sized_quotient (neg_part a) (neg_part b))
    -ℤ pos (sized_quotient (pos_part a) (neg_part b) + sized_quotient (neg_part a) (pos_part b))

instance abbrev pub int_double : Double ℤ
int_double = record {
  of_int = λ n. n;
  to_int = λ n. n;
  tenth = pos 0;
  half = pos 0;
  neg = λ n. pos 0 -ℤ n;
  add = λ a b. a +ℤ b;
  sub = λ a b. a -ℤ b;
  mul = λ a b. a *ℤ b;
  div = quotient;
  lt = ltb_ℤ;
  eq = λ a b. pos_part a == pos_part b && neg_part a == neg_part b;
}

sub_self : (n : ℕ) → pos n -ℤ pos n ≡ pos 0
unfolding ◌-ℤ◌
sub_self n = ground arith

neg_lem : (n : ℕ) → pos 0 -ℤ negsuc n ≡ pos (suc n)
unfolding ◌-ℤ◌
neg_lem n = ground arith

zero-mul : (n : ℕ) → pos 0 *ℤ pos n ≡ pos 0
unfolding ◌*ℤ◌
zero-mul n = ground arith

pub int_double-IsExact : IsExact ℤ
int_double-IsExact = record {
  to_int-of_nat = λ n h. refl;
  lt-of_int = λ a b h k. refl;
  neg-of_int = λ n h. neg_lem n;
  sub_self = λ n h. sub_self n;
  zero-mul = λ n h. zero-mul n;
}
