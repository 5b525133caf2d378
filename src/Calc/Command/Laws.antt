-- ===== src/Calc/Command/Laws.antt =====
-- What a line does to the variables, and when it is taken for a rounding command.
use calculatoros.Prelude.{
  ℕ, zero, suc, ◌<◌, ◌≡◌, ◌∙◌, refl, ap, sym, Bool, true, false, not, ◌&&◌, ◌||◌, none, some, List,
  [], ◌∷◌, ◌++◌, ◌==◌, leb, arith, length, take, drop, length-take,
}
use calculatoros.CString.{ascii, head, skip, skip_to}
use calculatoros.Number.{is_digit}
use calculatoros.Calc.{Double}
use calculatoros.Calc.Numbers.{parse_double, whole_part, with_fraction, of_nat}
use calculatoros.Calc.Outcome.{ok}
use calculatoros.Calc.Vars.{Vars, find_var, set_var, cmd_echo, echo_text}
use calculatoros.Calc.Vars.Find.{find_var_absent}
use calculatoros.Calc.Vars.Map.{IsTable}
use calculatoros.Calc.Vars.Set.{set_var-IsSet}
use calculatoros.Calc.Syntax.{all, spaces}
use calculatoros.Calc.Tokens.{skip-spaces, skip_other}
use calculatoros.Calc.Command.{
  var_word, assigned_text, cmd_var, round_value, is_round_command, result_text, calculated,
  calculate,
}

-- Neither a space nor an equals sign.
abbrev pub ordinary : ℕ → Bool
ordinary c = not (c == b' ' || c == b'=')

-- What stands between the name and the value.
abbrev pub equals : ℕ → ℕ → List ℕ → List ℕ
equals j i value = spaces j ++ (b'=' ∷ (spaces i ++ value))

var_word-equals :
    (n j i : ℕ) (value : List ℕ) → var_word n (equals j i value) ≡ ([], equals j i value)
unfolding var_word
var_word-equals zero j i value = refl
var_word-equals (suc n) zero i value = refl
var_word-equals (suc n) (suc j) i value = refl

var_word-append :
    (n j i : ℕ) (name value : List ℕ)
    → all ordinary name ≡ true
    → var_word n (name ++ equals j i value) ≡ (take n name, drop n name ++ equals j i value)
unfolding var_word
var_word-append zero j i name value h = refl
var_word-append (suc n) j i [] value h = var_word-equals (suc n) j i value
var_word-append (suc n) j i (c ∷ name) value h =
    let go : (c == b' ' || c == b'=') ≡ false = ground arith in
    rw (go, var_word-append n j i name value (ground arith)) refl

all-drop : (n : ℕ) (name : List ℕ) → all ordinary name ≡ true → all ordinary (drop n name) ≡ true
all-drop zero name h = h
all-drop (suc n) [] h = refl
all-drop (suc n) (c ∷ name) h = all-drop n name (ground arith)

skip_to-equals :
    (j i : ℕ) (value : List ℕ) → skip_to b'=' (equals j i value) ≡ b'=' ∷ (spaces i ++ value)
unfolding skip_to
skip_to-equals zero i value = refl
skip_to-equals (suc j) i value = skip_to-equals j i value

skip_to-append :
    (name s : List ℕ) → all ordinary name ≡ true → skip_to b'=' (name ++ s) ≡ skip_to b'=' s
unfolding skip_to
skip_to-append [] s h = refl
skip_to-append (c ∷ name) s h =
    let other : (c == b'=') ≡ false = ground arith in
    rw (other, skip_to-append name s (ground arith)) refl

skip_value : (value : List ℕ) → (head value == b' ') ≡ false → skip b' ' value ≡ value
unfolding skip
skip_value [] h = refl
skip_value (c ∷ value) h = rw h refl

module _ {W : Type 0} ⦃d : Double W⦄ where
  -- The line of a variable assigns the value to the first 15 bytes of the name, whatever spaces
  -- stand around the name and the equals sign.
  pub cmd_var-set_var :
      (k j i : ℕ) (name value : List ℕ) (t : Vars W)
      → all ordinary name ≡ true
      → leb 1 (length name) ≡ true
      → (head value == b' ') ≡ false
      → cmd_var (spaces k ++ (name ++ equals j i value)) t ≡ set_var (take 15 name) value t
  unfolding cmd_var assigned_text
  cmd_var-set_var k j i [] value t o l h = cc
  cmd_var-set_var k j i (c ∷ name) value t o l h =
      let other : (c == b' ') ≡ false = ground arith in
      let name' = c ∷ name in
      rw
        (
          skip-spaces k (name' ++ equals j i value),
          skip_other b' ' c (name ++ equals j i value) other,
          var_word-append 15 j i name' value o,
          skip_to-append (drop 15 name') (equals j i value) (all-drop 15 name' o),
          skip_to-equals j i value,
          skip-spaces i value,
          skip_value value h,
        )
        refl

  long_absent : (name : List ℕ) (t : Vars W) → 15 < length name → IsTable t → find_var name t ≡ none
  long_absent name t long h =
      find_var_absent name t λ j l e. let same = ap (λ s. length s) e in omega (arith, h.short j l)

  -- A name of more than 15 bytes has no value after the line that assigned it one.
  pub cmd_echo_long :
      (k j i : ℕ) (name value : List ℕ) {t t' : Vars W}
      → IsTable t
      → 15 < length name
      → all ordinary name ≡ true
      → (head value == b' ') ≡ false
      → cmd_var (spaces k ++ (name ++ equals j i value)) t ≡ some t'
      → cmd_echo name t' ≡ ascii "undefined\n"
  unfolding cmd_echo echo_text
  cmd_echo_long k j i name value {t} {t'} table long o h e =
      let set = sym (cmd_var-set_var k j i name value t o (ground arith) h) ∙ e in
      let table' =
        set_var-IsSet (take 15 name) value (omega (arith, length-take {0} 15 name)) table set in
      rw (long_absent name t' long table'.0) refl

  no_number :
      (c : ℕ) (s : List ℕ)
      → is_digit c ≡ false
      → (c == b'.') ≡ false
      → parse_double {W = W} (c ∷ s) ≡ of_nat 0
  unfolding parse_double whole_part with_fraction
  no_number c s n p = rw (n, p) refl

  taken_for_round :
      (r c : ℕ) (s : List ℕ)
      → (r == b'r' || r == b'R') ≡ true
      → (is_digit c || c == b'.') ≡ false
      → (c == 0 || c == b' ') ≡ false
      → is_round_command (r ∷ c ∷ s) ≡ some (round_value {W = W} (of_nat 0))
  unfolding is_round_command
  taken_for_round r c s h n z =
      let start : (not (r == b'r') && not (r == b'R')) ≡ false = ground arith in
      let r_space : (r == b' ') ≡ false = ground arith in
      let c_space : (c == b' ') ≡ false = ground arith in
      let c_end : (c == 0) ≡ false = ground arith in
      rw
        (
          skip_other b' ' r (c ∷ s) r_space,
          start,
          skip_other b' ' c s c_space,
          c_end,
          no_number c s (ground arith) (ground arith),
        )
        refl

  -- A line that starts with the letter r in either case and a byte that starts no number, such as the
  -- name of a variable in an expression, is answered by 0 rounded, whatever follows.
  pub calculate_shadowed :
      (t : Vars W) (r c : ℕ) (s : List ℕ)
      → (r == b'r' || r == b'R') ≡ true
      → (is_digit c || c == b'.') ≡ false
      → (c == 0 || c == b' ') ≡ false
      → calculate t (r ∷ c ∷ s) ≡ ok (result_text {W = W} (round_value (of_nat 0)))
  unfolding calculate calculated
  calculate_shadowed t r c s h n z = rw (taken_for_round r c s h n z) refl
