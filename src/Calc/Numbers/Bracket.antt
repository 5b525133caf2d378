-- ===== src/Calc/Numbers/Bracket.antt =====
-- The bisection of `sqrt_fast`.
use calculatoros.Prelude.{
  ℕ, zero, suc, ◌≡◌, ◌⊎◌, inl, inr, refl, true, false, Bool-cases, if◌then◌else◌,
}
use calculatoros.Calc.{Double}
use calculatoros.Calc.Numbers.{of_nat, bisect, bounds}

module _ {W : Type 0} ⦃d : Double W⦄ (x low₀ high₀ : W) where
  -- `low` is where it was or its square is below `x`; the square of `high` is not below `x`, unless
  -- `high` is where it was.
  pub record Brackets (b : W × W) : Type 0 where
    pub low_side : (b.0 ≡ low₀) ⊎ (d.lt (d.mul (b.0) (b.0)) x ≡ true)
    pub high_side : (b.1 ≡ high₀) ⊎ (d.lt (d.mul (b.1) (b.1)) x ≡ false)

  bisect-Brackets : (rounds : ℕ) (b : W × W) → Brackets b → Brackets (bisect rounds x b)
  unfolding bisect
  bisect-Brackets zero (low, high) h = h
  bisect-Brackets (suc rounds) (low, high) h =
      let mid = d.div (d.add low high) (of_nat 2) in
      elim (Bool-cases (d.lt (d.mul mid mid) x)) [
        | inl below ↦ rw below (
            bisect-Brackets rounds (mid, high)
              (record { low_side = inr below; high_side = h.high_side }))
        | inr above ↦ rw above (
            bisect-Brackets rounds (low, mid)
              (record { low_side = h.low_side; high_side = inr above }))
      ]

module _ {W : Type 0} ⦃d : Double W⦄ where
  -- For any `double`, NaN and infinities included, the lower bound that `sqrt_fast` ends with is 0
  -- or has a square below `x`; the upper one is the larger of 1 and `x` or has a square that is not.
  pub bounds-Brackets :
      (x : W) → Brackets x (of_nat 0) (if d.lt x (of_nat 1) then of_nat 1 else x) (bounds x)
  unfolding bounds
  bounds-Brackets x =
      bisect-Brackets x _ _ 100 _ (record { low_side = inl refl; high_side = inl refl })
