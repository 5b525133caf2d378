-- ===== src/Calc/Clock.antt =====
-- kernel.c: `bcd_to_bin` and `cmd_time`. What `cmos_read` returns are arguments.
use calculatoros.Prelude.{
  ℕ, ◌+◌, ◌*◌, ◌/◌, ◌%◌, ◌<◌, ◌≡◌, ◌∙◌, refl, ap, sym, List, [], ◌∷◌, ◌++◌, ltb, arith,
  if◌then◌else◌,
}
use mathlib.Core.List.{append_assoc}
use calculatoros.Prelude.Int.{pos}
use calculatoros.CString.{ascii}
use calculatoros.Number.{dec_loop, print_dec}
use calculatoros.Calc.{Double}
use calculatoros.Calc.Exact.{int_double}
use calculatoros.Calc.Numbers.{print_double}
use calculatoros.Calc.Numbers.Text.{IsExact, print_double-of_int}

unfoldable pub bcd_to_bin : ℕ → ℕ
bcd_to_bin val = val % 16 + val / 16 * 10

module _ (W : Type 0) ⦃d : Double W⦄ where
  -- One of the three numbers that `cmd_time` prints.
  unfoldable pub two_places : ℕ → List ℕ
  two_places n = (if ltb n 10 then b'0' ∷ [] else []) ++ print_double (d.of_int (pos n))

  unfoldable pub cmd_time : ℕ → ℕ → ℕ → List ℕ
  cmd_time sec min hour =
      two_places (bcd_to_bin hour % 24)
      ++ (b':'
          ∷ (two_places (bcd_to_bin min) ++ (b':' ∷ (two_places (bcd_to_bin sec) ++ ascii "\n"))))

-- A number below 100 in the registers of the clock.
abbrev pub to_bcd : ℕ → ℕ
to_bcd n = n / 10 * 16 + n % 10

pub bcd_to_bin-to_bcd : (n : ℕ) → n < 100 → bcd_to_bin (to_bcd n) ≡ n
unfolding bcd_to_bin
bcd_to_bin-to_bcd n h = omega arith

abbrev pub two_digits : ℕ → List ℕ
two_digits n = (b'0' + n / 10) ∷ (b'0' + n % 10) ∷ []

print_dec-two_digits :
    (n : ℕ) → n < 100 → (if ltb n 10 then b'0' ∷ [] else []) ++ print_dec n ≡ two_digits n
unfolding print_dec dec_loop
print_dec-two_digits n h = ground arith

module _ {W : Type 0} ⦃d : Double W⦄ (exact : IsExact W) where
  two_places-two_digits : (n : ℕ) → n < 100 → two_places W n ≡ two_digits n ++ ascii ".00"
  unfolding two_places
  two_places-two_digits n h = rw (print_double-of_int exact (pos n) (omega arith)) (
      sym (append_assoc _ (print_dec n) (ascii ".00"))
      ∙ ap (λ t. t ++ ascii ".00") (print_dec-two_digits n h))

  -- For exact arithmetic and a time in the clock's registers, `cmd_time` prints hours, minutes and
  -- seconds in two digits each, and ".00" behind each of the three.
  pub cmd_time-to_bcd :
      (sec min hour : ℕ)
      → sec < 60
      → min < 60
      → hour < 24
      → cmd_time W (to_bcd sec) (to_bcd min) (to_bcd hour)
        ≡ two_digits hour
          ++ (ascii ".00:"
              ++ (two_digits min ++ (ascii ".00:" ++ (two_digits sec ++ ascii ".00\n"))))
  unfolding cmd_time
  cmd_time-to_bcd sec min hour s m h =
      let e : hour % 24 ≡ hour = omega arith in
      rw
        (
          bcd_to_bin-to_bcd sec (omega arith),
          bcd_to_bin-to_bcd min (omega arith),
          bcd_to_bin-to_bcd hour (omega arith),
          e,
          two_places-two_digits sec (omega arith),
          two_places-two_digits min (omega arith),
          two_places-two_digits hour (omega arith),
        )
        refl
