-- ===== src/Calc/Numbers.antt =====
-- kernel.c: `parse_double`, `print_double`, `sqrt_fast` and `pow`.
pub mod Text
pub mod Bracket
use calculatoros.Prelude.{
  ℕ, zero, suc, ◌+◌, ◌-◌, ◌/◌, ◌%◌, ◌^◌, Bool, true, false, ◌&&◌, List, [], ◌∷◌, ◌++◌, ◌==◌, leb,
  if◌then◌else◌,
}
use calculatoros.Prelude.Int.{ℤ, pos, negsuc}
use calculatoros.CString.{head, tail}
use calculatoros.Number.{is_digit}
use calculatoros.Calc.{Double}

abbrev pub int_max : ℕ
int_max = 2 ^ 31

-- The loop of `print_double` over `int_part`, with the bytes of `buf`, the last one first. Printing
-- pops them.
unfoldable pub int_digits : ℕ → ℕ → List ℕ → List ℕ
int_digits zero int_part buf = buf
int_digits (suc room) int_part buf =
    let more = int_digits room (int_part / 10) ((b'0' + int_part % 10) ∷ buf) in
    if int_part == 0 then buf else more

-- A negative `int_part`, which an out of range cast gives, prints no digit.
unfoldable pub int_text : ℤ → List ℕ
int_text (pos n) = if n == 0 then b'0' ∷ [] else int_digits 10 n []
int_text (negsuc n) = []

-- `-n`, which wraps around for the least `int`.
unfoldable pub negated : ℤ → ℤ
negated (pos zero) = pos 0
negated (pos (suc n)) = negsuc n
negated (negsuc n) = if n + 1 == int_max then negsuc n else pos (n + 1)

-- `'0' + n % 10`
unfoldable pub digit_char : ℤ → ℕ
digit_char (pos n) = b'0' + n % 10
digit_char (negsuc n) = b'0' - (n + 1) % 10

-- `n / 10`, rounded towards 0.
unfoldable pub tenths : ℤ → ℤ
unfolding negated
tenths (pos n) = pos (n / 10)
tenths (negsuc n) = negated (pos ((n + 1) / 10))

unfoldable pub is_negative : ℤ → Bool
is_negative (pos n) = false
is_negative (negsuc n) = true

unfoldable pub frac_text : ℤ → List ℕ
unfolding negated digit_char tenths is_negative
frac_text frac_int =
    let n = if is_negative frac_int then negated frac_int else frac_int in
    digit_char (tenths n) ∷ digit_char n ∷ []

-- The rounds of `res *= a`, one for each `i < n` after `n` is made positive.
unfoldable pub pow_rounds : ℤ → ℕ
pow_rounds (pos n) = n
pow_rounds (negsuc n) = if n + 1 == int_max then 0 else n + 1

module _ {W : Type 0} ⦃d : Double W⦄ where
  abbrev pub of_nat : ℕ → W
  of_nat n = d.of_int (pos n)

  -- The digits before the point, and what follows them.
  unfoldable pub whole_part : W → List ℕ → W × List ℕ
  whole_part res [] = (res, [])
  whole_part res (c ∷ s) =
      let rest = whole_part (d.add (d.mul res (of_nat 10)) (of_nat (c - b'0'))) s in
      if is_digit c then rest else (res, c ∷ s)

  unfoldable pub fraction : W → W → List ℕ → W
  fraction res frac [] = res
  fraction res frac (c ∷ s) =
      let rest = fraction (d.add res (d.mul (of_nat (c - b'0')) frac)) (d.mul frac d.tenth) s in
      if is_digit c then rest else res

  unfoldable pub with_fraction : W × List ℕ → W
  unfolding fraction
  with_fraction (res, rest) = if head rest == b'.' then fraction res d.tenth (tail rest) else res

  unfoldable pub parse_double : List ℕ → W
  unfolding whole_part with_fraction
  parse_double s = with_fraction (whole_part (of_nat 0) s)

  unfoldable pub print_positive : W → List ℕ
  unfolding int_text frac_text
  print_positive num =
      let int_part = d.to_int num in
      let frac_part = d.sub num (d.of_int int_part) in
      int_text int_part ++ (b'.' ∷ frac_text (d.to_int (d.mul frac_part (of_nat 100))))

  unfoldable pub print_double : W → List ℕ
  print_double num =
      if d.lt num (of_nat 0) then b'-' ∷ print_positive (d.neg num) else print_positive num

  -- The bisection, with the bounds `low` and `high`.
  unfoldable pub bisect : ℕ → W → W × W → W × W
  bisect zero x (low, high) = (low, high)
  bisect (suc rounds) x (low, high) =
      let mid = d.div (d.add low high) (of_nat 2) in
      bisect rounds x (if d.lt (d.mul mid mid) x then (mid, high) else (low, mid))

  unfoldable pub bounds : W → W × W
  unfolding bisect
  bounds x = bisect 100 x (of_nat 0, if d.lt x (of_nat 1) then of_nat 1 else x)

  unfoldable pub sqrt_fast : W → W
  unfolding bounds
  sqrt_fast x =
      if d.lt x (of_nat 0)
      then d.of_int (negsuc 0)
      else if d.eq x (of_nat 0)
      then of_nat 0
      else if d.eq x (of_nat 1)
      then of_nat 1
      else d.div (d.add (bounds x).0 (bounds x).1) (of_nat 2)

  unfoldable pub times : ℕ → W → W → W
  times zero a res = res
  times (suc n) a res = times n a (d.mul res a)

  unfoldable pub int_pow : W → ℤ → W
  unfolding times pow_rounds is_negative
  int_pow a n =
      let res = times (pow_rounds n) a (of_nat 1) in
      if is_negative n then d.div (of_nat 1) res else res

  unfoldable pub pow : W → W → W
  unfolding int_pow sqrt_fast
  pow a b =
      if d.eq b (of_nat 0)
      then of_nat 1
      else if d.eq b (d.of_int (d.to_int b))
      then int_pow a (d.to_int b)
      else if d.eq b d.half
      then sqrt_fast a
      else if d.lt (of_nat 0) b && d.lt b (of_nat 1)
      then d.mul (sqrt_fast a) (d.add (d.mul b (of_nat 2)) (d.sub (of_nat 1) b))
      else of_nat 0
