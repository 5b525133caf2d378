-- ===== src/Calc/Vars.antt =====
-- kernel.c: the variables of the calculator, and the commands on them. What a command prints is the
-- list of the characters given to `print_char`.
pub mod Find
pub mod Map
pub mod Set
pub mod Delete
use calculatoros.Prelude.{
  ℕ, zero, suc, ◌+◌, ◌-◌, Bool, true, false, ◌&&◌, ◌||◌, Option, none, some, List, [], ◌∷◌, ◌++◌,
  ◌==◌, ltb, leb, if◌then◌else◌, take,
}
use calculatoros.Prelude.Int.{ℤ, pos}
use calculatoros.CString.{ascii, head, tail, streq}
use calculatoros.Calc.{Double}
use calculatoros.Calc.Numbers.{parse_double, print_double, of_nat}

abbrev pub max_vars : ℕ
max_vars = 16

pub data VarType : Type 0 where
  type_int type_double type_string : VarType

pub record Variable (W : Type 0) : Type 0 where
  pub name : List ℕ
  pub type : VarType
  pub i_val : ℤ
  pub d_val : W
  pub s_val : List ℕ

-- `vars` and `var_count`. A pointer into `vars` is its index.
pub record Vars (W : Type 0) : Type 0 where
  pub vars : ℕ → Variable W
  pub var_count : ℕ

-- The bytes up to a quote, at most `room`.
unfoldable pub quoted : ℕ → List ℕ → List ℕ
quoted zero s = []
quoted (suc room) [] = []
quoted (suc room) (c ∷ s) = if c == b'"' then [] else c ∷ quoted room s

unfoldable pub has_dot : List ℕ → Bool
has_dot [] = false
has_dot (c ∷ s) = c == b'.' || has_dot s

-- `cmd_print` without its newline.
unfoldable pub printed : List ℕ → List ℕ
printed [] = []
printed (c ∷ s) = if c == b'"' then [] else c ∷ printed s

unfoldable pub cmd_print : List ℕ → List ℕ
unfolding printed
cmd_print text = printed (if head text == b'"' then tail text else text) ++ ascii "\n"

module _ {W : Type 0} where
  -- The rounds that are left from index `i` on.
  unfoldable pub find_from : List ℕ → (ℕ → Variable W) → ℕ → ℕ → Option ℕ
  find_from name vars zero i = none
  find_from name vars (suc left) i =
      let rest = find_from name vars left (i + 1) in
      if streq (vars i).name name then some i else rest

  unfoldable pub find_var : List ℕ → Vars W → Option ℕ
  find_var name t = find_from name t.vars t.var_count 0

  abbrev pub put_var : ℕ → Variable W → Vars W → Vars W
  put_var i v t = record t { vars = λ j. if j == i then v else t.vars j }

  -- The loop that closes the gap at `i`.
  abbrev pub shifted : ℕ → Vars W → ℕ → Variable W
  shifted i t j = if leb i j && ltb j (t.var_count - 1) then t.vars (j + 1) else t.vars j

  unfoldable pub remove_at : Option ℕ → Vars W → Vars W
  remove_at none t = t
  remove_at (some i) t = record t { vars = shifted i t; var_count = t.var_count - 1 }

  unfoldable pub delete_var : List ℕ → Vars W → Vars W
  delete_var name t = remove_at (find_var name t) t

  unfoldable pub type_text : Option ℕ → Vars W → List ℕ
  type_text none t = ascii "undefined\n"
  type_text (some i) t = elim (t.vars i).type [
    | type_int ↦ ascii "int\n"
    | type_double ↦ ascii "double\n"
    | type_string ↦ ascii "string\n"
  ]

  unfoldable pub cmd_type : List ℕ → Vars W → List ℕ
  cmd_type name t = type_text (find_var name t) t

module _ {W : Type 0} ⦃d : Double W⦄ where
  -- The value and the name that are written to the variable at `v`.
  unfoldable pub assigned : List ℕ → List ℕ → Variable W → Variable W
  assigned name value v =
      let name = take 15 name in
      if head value == b'"'
      then record v { name = name; type = type_string; s_val = quoted 31 (tail value) }
      else if has_dot value
      then record v { name = name; type = type_double; d_val = parse_double value }
      else record v { name = name; type = type_int; i_val = d.to_int (parse_double value) }

  -- `none` is the write through a null pointer where the name is new and the array is full.
  unfoldable pub set_at : Option ℕ → List ℕ → List ℕ → Vars W → Option (Vars W)
  set_at (some i) name value t = some (put_var i (assigned name value (t.vars i)) t)
  set_at none name value t =
      let i = t.var_count in
      if ltb i max_vars
      then some (put_var i (assigned name value (t.vars i)) (record t { var_count = i + 1 }))
      else none

  unfoldable pub set_var : List ℕ → List ℕ → Vars W → Option (Vars W)
  set_var name value t = set_at (find_var name t) name value t

  unfoldable pub value_text : Variable W → List ℕ
  value_text v = elim v.type [
    | type_int ↦ print_double (d.of_int v.i_val)
    | type_double ↦ print_double v.d_val
    | type_string ↦ v.s_val
  ]

  unfoldable pub echo_text : Option ℕ → Vars W → List ℕ
  echo_text none t = ascii "undefined\n"
  echo_text (some i) t = value_text (t.vars i) ++ ascii "\n"

  unfoldable pub cmd_echo : List ℕ → Vars W → List ℕ
  cmd_echo name t = echo_text (find_var name t) t

  unfoldable pub list_from : (ℕ → Variable W) → ℕ → ℕ → List ℕ
  list_from vars zero i = []
  list_from vars (suc left) i =
      (vars i).name
      ++ (ascii " = " ++ (value_text (vars i) ++ (b'\n' ∷ list_from vars left (i + 1))))

  unfoldable pub list_vars : Vars W → List ℕ
  list_vars t = list_from t.vars t.var_count 0

  unfoldable pub number_of : Option ℕ → Vars W → W
  number_of none t = of_nat 0
  number_of (some i) t = elim (t.vars i).type [
    | type_int ↦ d.of_int (t.vars i).i_val
    | type_double ↦ (t.vars i).d_val
    | type_string ↦ of_nat 0
  ]

  unfoldable pub get_var_double : List ℕ → Vars W → W
  get_var_double name t = number_of (find_var name t) t
