-- ===== src/Calc/Vars/Set.antt =====
-- What `set_var` does to the map.
use calculatoros.Prelude.{
  ℕ, zero, suc, ◌+◌, ◌≤◌, ◌≡◌, subst, inl, inr, refl, ap, sym, ◌∙◌, Option, some, List, [], ◌∷◌,
  ◌==◌, ltb, arith, Bool-cases, if◌then◌else◌, length, take,
}
use calculatoros.CString.{head, tail, streq}
use calculatoros.Calc.{Double}
use calculatoros.Calc.Numbers.{parse_double}
use calculatoros.Calc.Vars.{Variable, Vars, max_vars, quoted, has_dot, assigned, set_at, set_var}
use calculatoros.Calc.Vars.Find.{Finds, found, missing, find_var-Finds}
use calculatoros.Calc.Vars.Map.{
  Value, int, double, text, value_of, read, IsTable, Puts, put_var-Puts, Puts-IsTable, put_read,
}

pub some-injective {ℓ} : {A : Type ℓ} {a b : A} → some a ≡ some b → a ≡ b
some-injective e = cc

take_all : (n : ℕ) (xs : List ℕ) → length xs ≤ n → take n xs ≡ xs
take_all zero [] h = refl
take_all zero (x ∷ xs) h = absurd (omega arith)
take_all (suc n) [] h = refl
take_all (suc n) (x ∷ xs) h = ap (x ∷◌) (take_all n xs (omega arith))

module _ {W : Type 0} ⦃d : Double W⦄ where
  -- What a text stands for: a string in quotes, a number with a point, or an `int`.
  abbrev pub parsed : List ℕ → Value W
  parsed value =
      if head value == b'"'
      then text (quoted 31 (tail value))
      else if has_dot value
      then double (parse_double value)
      else int (d.to_int (parse_double value))

  value_of-assigned :
      (name value : List ℕ) (v : Variable W) → value_of (assigned name value v) ≡ parsed value
  unfolding assigned
  value_of-assigned name value v = elim (Bool-cases (head value == b'"')) [
    | inl quote ↦ rw quote refl
    | inr other ↦ elim (Bool-cases (has_dot value)) [
      | inl dot ↦ rw (other, dot) refl
      | inr whole ↦ rw (other, whole) refl
    ]
  ]

  name-assigned :
      (name value : List ℕ) (v : Variable W)
      → length name ≤ 15
      → (assigned name value v).name ≡ name
  unfolding assigned
  name-assigned name value v h = elim (Bool-cases (head value == b'"')) [
    | inl quote ↦ rw quote (take_all 15 name h)
    | inr other ↦ elim (Bool-cases (has_dot value)) [
      | inl dot ↦ rw (other, dot) (take_all 15 name h)
      | inr whole ↦ rw (other, whole) (take_all 15 name h)
    ]
  ]

  -- `set_at` puts the assigned value where `find_var` says.
  record Sets (name value : List ℕ) (t t' : Vars W) : Type 0 where
    at : ℕ
    puts : Puts at (assigned name value (t.vars at)) t t'

  set_at-Sets :
      (name value : List ℕ) {t t' : Vars W} {r : Option ℕ}
      → length name ≤ 15
      → IsTable t
      → Finds name t.vars 0 t.var_count r
      → set_at r name value t ≡ some t'
      → Sets name value t t'
  unfolding set_at
  set_at-Sets name value {t} {t'} s h (found i l m e first) r =
      let v = assigned name value (t.vars i) in
      let e_v : v.name ≡ name = name-assigned name value (t.vars i) s in
      let p =
        put_var-Puts i v t.var_count t m (omega arith) (λ j l n. l) (λ c. c) (λ _. e ∙ sym e_v)
          (λ j l n same. n (h.distinct j i l m (same ∙ e_v ∙ sym e))) in
      record { at = i; puts = subst (Puts i v t) (cc) p }
  set_at-Sets name value {t} {t'} s h (missing none_of) r =
      elim (Bool-cases (ltb t.var_count max_vars)) [
        | inl room ↦
            let i = t.var_count in
            let v = assigned name value (t.vars i) in
            let e_v : v.name ≡ name = name-assigned name value (t.vars i) s in
            let p =
              put_var-Puts i v (i + 1) t (omega arith) (omega arith) (λ j l n. omega arith)
                (λ c. ground arith) (λ l. absurd (omega arith))
                (λ j l n same. none_of j (omega arith) l (same ∙ e_v)) in
            record { at = i; puts = subst (Puts i v t) (some-injective (rw room at r)) p }
        | inr full ↦ cc
      ]

  -- Setting a variable whose name has at most 15 bytes keeps the names apart and the variables
  -- within their arrays, gives that name the value of the text, and changes no other name.
  pub set_var-IsSet :
      (name value : List ℕ) {t t' : Vars W}
      → length name ≤ 15
      → IsTable t
      → set_var name value t ≡ some t'
      → IsTable t'
        × ((n : List ℕ) → read n t' ≡ (if streq name n then some (parsed value) else read n t))
  unfolding set_var
  set_var-IsSet name value {t} {t'} s h r =
      let sets = set_at-Sets name value s h (find_var-Finds name t) r in
      let v = assigned name value (t.vars sets.at) in
      let e_v : v.name ≡ name = name-assigned name value (t.vars sets.at) s in
      let h' = Puts-IsTable sets.puts (rw e_v s) h in
      (
        h',
        λ n. rw (← e_v, ← value_of-assigned name value (t.vars sets.at)) (put_read sets.puts h' n),
      )
