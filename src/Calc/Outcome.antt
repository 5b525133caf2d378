-- ===== src/Calc/Outcome.antt =====
-- How a calculation ends, and postconditions on it.
use calculatoros.Prelude.{◌≡◌, refl, Bool, true, false, if◌then◌else◌}

-- `divide_error` is the exception of the processor's division, `overrun` a write past the end of
-- `name`; `out_of_fuel` has no counterpart in the program.
pub data Outcome (A : Type 0) : Type 0 where
  ok : A → Outcome A
  divide_error overrun out_of_fuel : Outcome A

infixl 1 ◌>>=◌
abbrev pub ◌>>=◌ : {A B : Type 0} → Outcome A → (A → Outcome B) → Outcome B
ok a >>= f = f a
divide_error >>= f = divide_error
overrun >>= f = overrun
out_of_fuel >>= f = out_of_fuel

-- The fuel was enough, and `P` holds of the result if there is one.
abbrev pub Ensures : {A : Type 0} → (A → Type 0) → Outcome A → Type 0
Ensures P (ok a) = P a
Ensures P divide_error = Unit
Ensures P overrun = Unit
Ensures P out_of_fuel = ⊥

module _ {A : Type 0} where
  pub Ensures-bind :
      {B : Type 0} (P : A → Type 0) (Q : B → Type 0) (m : Outcome A) (f : A → Outcome B)
      → Ensures P m
      → ((a : A) → P a → Ensures Q (f a))
      → Ensures Q (m >>= f)
  Ensures-bind P Q (ok a) f h k = k a h
  Ensures-bind P Q divide_error f h k = tt
  Ensures-bind P Q overrun f h k = tt
  Ensures-bind P Q out_of_fuel f h k = elim h [ ]

  pub Ensures-if :
      (P : A → Type 0) (b : Bool) (x y : Outcome A)
      → (b ≡ true → Ensures P x)
      → (b ≡ false → Ensures P y)
      → Ensures P (if b then x else y)
  Ensures-if P true x y h k = h refl
  Ensures-if P false x y h k = k refl

  -- Two runs whose first steps agree agree if the rest does on what the first can return.
  pub bind_cong :
      {B : Type 0} (P : A → Type 0) (m m' : Outcome A) (f f' : A → Outcome B)
      → Ensures P m
      → m ≡ m'
      → ((a : A) → P a → f a ≡ f' a)
      → (m >>= f) ≡ (m' >>= f')
  bind_cong P (ok a) m' f f' h e k = rw (← e) (k a h)
  bind_cong P divide_error m' f f' h e k = rw (← e) refl
  bind_cong P overrun m' f f' h e k = rw (← e) refl
  bind_cong P out_of_fuel m' f f' h e k = elim h [ ]

  pub if_cong :
      (b : Bool) (x x' y y' : Outcome A)
      → (b ≡ true → x ≡ x')
      → (b ≡ false → y ≡ y')
      → (if b then x else y) ≡ (if b then x' else y')
  if_cong true x x' y y' h k = h refl
  if_cong false x x' y y' h k = k refl
