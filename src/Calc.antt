-- ===== src/Calc.antt =====
-- The calculator of kernel.c: numbers, variables and expressions. The type `double` is a parameter
-- with the operations that the code applies to it.
pub mod Numbers
pub mod Clock
pub mod Exact
pub mod Vars
pub mod Outcome
pub mod Parser
pub mod Syntax
pub mod Tokens
pub mod Steps
pub mod Behind
pub mod Reads
pub mod Whole
pub mod Command
mod Tests
use calculatoros.Prelude.{Bool}
use calculatoros.Prelude.Int.{ℤ}

-- `of_int` converts an `int`, `to_int` is the cast `(int)`; `tenth` is 0.1 and `half` is 0.5. `lt`
-- and `eq` are `<` and `==`, which are false on NaN.
pub record Double (W : Type 0) : Type 0 where
  pub of_int : ℤ → W
  pub to_int : W → ℤ
  pub tenth : W
  pub half : W
  pub neg : W → W
  pub add : W → W → W
  pub sub : W → W → W
  pub mul : W → W → W
  pub div : W → W → W
  pub lt : W → W → Bool
  pub eq : W → W → Bool
