-- ===== src/Calc/Syntax.antt =====
-- Expressions as the calculator understands them: what they are worth, and how they are written.
-- Powers bind closer than products, products closer than sums, and all three associate to the left;
-- a minus in front binds closest.
use calculatoros.Prelude.{
  ℕ, ◌≡◌, Bool, true, ◌&&◌, ◌||◌, List, [], ◌∷◌, ◌++◌, ◌==◌, leb, length, replicate,
}
use calculatoros.CString.{head}
use calculatoros.Number.{is_digit}
use calculatoros.Calc.{Double}
use calculatoros.Calc.Numbers.{parse_double, pow}
use calculatoros.Calc.Outcome.{Outcome, ok, ◌>>=◌}
use calculatoros.Calc.Vars.{Vars, get_var_double}
use calculatoros.Calc.Parser.{is_letter, remainder, rounded}

abbrev pub all : (ℕ → Bool) → List ℕ → Bool
all test [] = true
all test (c ∷ s) = test c && all test s

abbrev pub in_number : ℕ → Bool
in_number c = is_digit c || c == b'.'

-- Digits and points, a digit first.
pub record Literal : Type 0 where
  pub text : List ℕ
  pub starts : is_digit (head text) ≡ true
  pub made : all in_number text ≡ true

-- One to 15 letters.
pub record Name : Type 0 where
  pub text : List ℕ
  pub starts : is_letter (head text) ≡ true
  pub made : all is_letter text ≡ true
  pub fits : leb (length text) 15 ≡ true

pub data TermOp : Type 0 where
  times over floor modulo : TermOp

pub data SumOp : Type 0 where
  plus less : SumOp

-- A number stands for the spaces before a token.
mutual
  pub data Factor : Type 0 where
    num : ℕ → Literal → Factor
    var : ℕ → Name → Factor
    minus : ℕ → Factor → Factor
    group : ℕ → Sum → ℕ → Factor

  pub data Power : Type 0 where
    base : Factor → Power
    raise : Power → ℕ → Factor → Power

  pub data Product : Type 0 where
    one : Power → Product
    product : Product → ℕ → TermOp → Power → Product

  pub data Sum : Type 0 where
    only : Product → Sum
    sum : Sum → ℕ → SumOp → Product → Sum

abbrev pub spaces : ℕ → List ℕ
spaces k = replicate k b' '

abbrev pub term_text : TermOp → List ℕ
term_text times = b'*' ∷ []
term_text over = b'/' ∷ []
term_text floor = b'/' ∷ b'/' ∷ []
term_text modulo = b'%' ∷ []

abbrev pub sum_text : SumOp → ℕ
sum_text plus = b'+'
sum_text less = b'-'

-- The text of an expression, followed by `rest`.
unfoldable mutual
  pub write_factor : Factor → List ℕ → List ℕ
  write_factor (num k n) rest = spaces k ++ (n.text ++ rest)
  write_factor (var k x) rest = spaces k ++ (x.text ++ rest)
  write_factor (minus k e) rest = spaces k ++ (b'-' ∷ write_factor e rest)
  write_factor (group k e j) rest = spaces k ++ (b'(' ∷ write_sum e (spaces j ++ (b')' ∷ rest)))

  pub write_power : Power → List ℕ → List ℕ
  write_power (base e) rest = write_factor e rest
  write_power (raise p k e) rest = write_power p (spaces k ++ (b'^' ∷ write_factor e rest))

  pub write_product : Product → List ℕ → List ℕ
  write_product (one p) rest = write_power p rest
  write_product (product q k op p) rest =
      write_product q (spaces k ++ (term_text op ++ write_power p rest))

  pub write_sum : Sum → List ℕ → List ℕ
  write_sum (only q) rest = write_product q rest
  write_sum (sum e k op q) rest = write_sum e (spaces k ++ (sum_text op ∷ write_product q rest))

module _ {W : Type 0} ⦃d : Double W⦄ where
  abbrev pub apply_term : TermOp → W → W → Outcome W
  apply_term times a b = ok (d.mul a b)
  apply_term over a b = ok (d.div a b)
  apply_term floor a b = ok (d.of_int (d.to_int (d.div a b)))
  apply_term modulo a b = rounded (remainder (d.to_int a) (d.to_int b))

  abbrev pub apply_sum : SumOp → W → W → W
  apply_sum plus a b = d.add a b
  apply_sum less a b = d.sub a b

module _ {W : Type 0} ⦃d : Double W⦄ (t : Vars W) where
  -- The value, from the left to the right, or the exception of a division.
  unfoldable mutual
    pub factor_value : Factor → Outcome W
    factor_value (num k n) = ok (parse_double n.text)
    factor_value (var k x) = ok (get_var_double x.text t)
    factor_value (minus k e) = factor_value e >>= λ v. ok (d.neg v)
    factor_value (group k e j) = sum_value e

    pub power_value : Power → Outcome W
    power_value (base e) = factor_value e
    power_value (raise p k e) = power_value p >>= λ a. factor_value e >>= λ b. ok (pow a b)

    pub product_value : Product → Outcome W
    product_value (one p) = power_value p
    product_value (product q k op p) =
        product_value q >>= λ a. power_value p >>= λ b. apply_term op a b

    pub sum_value : Sum → Outcome W
    sum_value (only q) = product_value q
    sum_value (sum e k op q) = sum_value e >>= λ a. product_value q >>= λ b. ok (apply_sum op a b)
