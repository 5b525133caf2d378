-- ===== src/Calc/Vars/Map.antt =====
-- The variables as a map from names to values.
use calculatoros.Prelude.{
  ℕ, ◌<◌, ◌≤◌, ◌≡◌, ◌≢◌, ◌⊎◌, inl, inr, refl, ap, sym, ◌∙◌, true, false, Option, none, some, List,
  arith, Bool-cases, if◌then◌else◌, length,
}
use calculatoros.Prelude.Int.{ℤ}
use calculatoros.CString.{streq}
use calculatoros.CString.Laws.{streq_iff}
use calculatoros.Calc.Vars.{
  Variable, Vars, type_int, type_double, type_string, max_vars, find_var, put_var,
}
use calculatoros.Calc.Vars.Find.{
  Finds, found, missing, find_var-Finds, find_var_at, find_var_absent,
}

pub index_cases : (j i : ℕ) → (j ≡ i) ⊎ (j ≢ i)
index_cases j i = ground arith

pub data Value (W : Type 0) : Type 0 where
  int : ℤ → Value W
  double : W → Value W
  text : List ℕ → Value W

module _ {W : Type 0} where
  abbrev pub value_of : Variable W → Value W
  value_of v = elim v.type [
    | type_int ↦ int v.i_val
    | type_double ↦ double v.d_val
    | type_string ↦ text v.s_val
  ]

  abbrev pub value_at : Option ℕ → Vars W → Option (Value W)
  value_at none t = none
  value_at (some i) t = some (value_of (t.vars i))

  -- What the name stands for.
  abbrev pub read : List ℕ → Vars W → Option (Value W)
  read name t = value_at (find_var name t) t

  -- No two variables have the same name, a name and a text fit their arrays, and so do the variables.
  pub record IsTable (t : Vars W) : Type 0 where
    pub count_le : t.var_count ≤ max_vars
    pub short : (i : ℕ) → i < t.var_count → length (t.vars i).name ≤ 15
    pub distinct :
        (i j : ℕ) → i < t.var_count → j < t.var_count → (t.vars i).name ≡ (t.vars j).name → i ≡ j

  pub find_var_unique :
      {t : Vars W}
      → IsTable t
      → (name : List ℕ) (i : ℕ) → i < t.var_count
      → (t.vars i).name ≡ name
      → find_var name t ≡ some i
  find_var_unique {t} h name i l e =
      find_var_at name t i l e
        (λ j m e'. let same = h.distinct j i (omega arith) l (e' ∙ sym e) in omega arith)

  -- `t'` is `t` with `v` at index `i`, which is one of its own or the next.
  pub record Puts (i : ℕ) (v : Variable W) (t t' : Vars W) : Type 0 where
    pub here : t'.vars i ≡ v
    pub there : (j : ℕ) → j ≢ i → t'.vars j ≡ t.vars j
    pub inside : i < t'.var_count
    pub keeps : t.var_count ≤ t'.var_count
    pub back : (j : ℕ) → j < t'.var_count → j ≢ i → j < t.var_count
    pub bounded : t.var_count ≤ max_vars → t'.var_count ≤ max_vars
    pub own : i < t.var_count → (t.vars i).name ≡ v.name
    pub unused : (j : ℕ) → j < t.var_count → j ≢ i → (t.vars j).name ≢ v.name

  pub put_var-Puts :
      (i : ℕ) (v : Variable W) (count : ℕ) (t : Vars W)
      → i < count
      → t.var_count ≤ count
      → ((j : ℕ) → j < count → j ≢ i → j < t.var_count)
      → (t.var_count ≤ max_vars → count ≤ max_vars)
      → (i < t.var_count → (t.vars i).name ≡ v.name)
      → ((j : ℕ) → j < t.var_count → j ≢ i → (t.vars j).name ≢ v.name)
      → Puts i v t (put_var i v (record t { var_count = count }))
  put_var-Puts i v count t inside keeps back bounded own unused = record {
    here = ground arith;
    there = λ j n. ground arith;
    inside = inside;
    keeps = keeps;
    back = back;
    bounded = bounded;
    own = own;
    unused = unused;
  }

  pub Puts-IsTable :
      {i : ℕ} {v : Variable W} {t t' : Vars W}
      → Puts i v t t'
      → length v.name ≤ 15
      → IsTable t
      → IsTable t'
  Puts-IsTable {i} {v} {t} {t'} p s h = record {
    count_le = p.bounded h.count_le;
    short = λ j l. short_at j l (index_cases j i);
    distinct = λ j k l m e. distinct_at j k l m e (index_cases j i) (index_cases k i);
  }
    where
      short_at : (j : ℕ) → j < t'.var_count → (j ≡ i) ⊎ (j ≢ i) → length (t'.vars j).name ≤ 15
      short_at j l (inl e) = rw (e, p.here) s
      short_at j l (inr n) = rw (p.there j n) (h.short j (p.back j l n))

      distinct_at :
          (j k : ℕ)
          → j < t'.var_count
          → k < t'.var_count
          → (t'.vars j).name ≡ (t'.vars k).name
          → (j ≡ i) ⊎ (j ≢ i)
          → (k ≡ i) ⊎ (k ≢ i)
          → j ≡ k
      distinct_at j k l m e (inl a) (inl b) = cc
      distinct_at j k l m e (inl a) (inr b) = absurd (
          p.unused k (p.back k m b) b (
            let e' : (t'.vars i).name ≡ (t'.vars k).name = rw (← a) e in
            sym (rw (p.here, p.there k b) at e')))
      distinct_at j k l m e (inr a) (inl b) = absurd (
          p.unused j (p.back j l a) a (
            let e' : (t'.vars j).name ≡ (t'.vars i).name = rw (← b) e in
            rw (p.here, p.there j a) at e'))
      distinct_at j k l m e (inr a) (inr b) =
          h.distinct j k (p.back j l a) (p.back k m b) (rw (p.there j a, p.there k b) at e)

  pub put_read :
      {i : ℕ} {v : Variable W} {t t' : Vars W}
      → Puts i v t t'
      → IsTable t'
      → (n : List ℕ) → read n t' ≡ (if streq v.name n then some (value_of v) else read n t)
  put_read {i} {v} {t} {t'} p h n = go (Bool-cases (streq v.name n)) (find_var-Finds n t) refl
    where
      other_name : streq v.name n ≡ false → v.name ≢ n
      other_name other e = cc ((streq_iff v.name n).1 e)

      go :
          (streq v.name n ≡ true) ⊎ (streq v.name n ≡ false)
          → {r : Option ℕ} → Finds n t.vars 0 t.var_count r
          → find_var n t ≡ r
          → read n t' ≡ (if streq v.name n then some (value_of v) else read n t)
      go (inl same) f e =
          let at = find_var_unique h n i p.inside (rw p.here ((streq_iff _ n).0 same)) in
          rw (at, same, p.here) refl
      go (inr other) (found k l m e first) at =
          let k_ne : k ≢ i = λ k_eq.
            other_name other
              (sym (p.own (rw (← k_eq) m)) ∙ ap (λ j. (t.vars j).name) (sym k_eq) ∙ e) in
          let at' = find_var_unique h n k (omega (arith, p.keeps)) (rw (p.there k k_ne) e) in
          rw (at, at', other, p.there k k_ne) refl
      go (inr other) (missing none_of) at =
          let at' = find_var_absent n t' (λ j l. name_at other none_of j l (index_cases j i)) in
          rw (at, at', other) refl
        where
          name_at :
              streq v.name n ≡ false
              → ((j : ℕ) → 0 ≤ j → j < t.var_count → (t.vars j).name ≢ n)
              → (j : ℕ) → j < t'.var_count
              → (j ≡ i) ⊎ (j ≢ i)
              → (t'.vars j).name ≢ n
          name_at other none_of j l (inl e) = rw (e, p.here) (other_name other)
          name_at other none_of j l (inr e) =
              rw (p.there j e) (none_of j (omega arith) (p.back j l e))
