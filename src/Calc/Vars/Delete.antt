-- ===== src/Calc/Vars/Delete.antt =====
-- What `delete_var` does to the map.
use calculatoros.Prelude.{
  ℕ, ◌+◌, ◌-◌, ◌<◌, ◌≡◌, ◌≢◌, ◌⊎◌, inl, inr, refl, ap, sym, ◌∙◌, true, false, Option, none, some,
  List, leb, ltb, arith, Bool-cases, if◌then◌else◌,
}
use calculatoros.CString.{streq}
use calculatoros.CString.Laws.{streq_iff}
use calculatoros.Calc.Vars.{Vars, find_var, shifted, remove_at, delete_var}
use calculatoros.Calc.Vars.Find.{Finds, found, missing, find_var-Finds, find_var_absent}
use calculatoros.Calc.Vars.Map.{read, IsTable, find_var_unique}

-- Where the variable that gets index `j` comes from, and where the one at `k` goes.
abbrev origin : ℕ → ℕ → ℕ
origin i j = if ltb j i then j else j + 1

abbrev target : ℕ → ℕ → ℕ
target i k = if ltb k i then k else k - 1

origin_lt : (i j count : ℕ) → j < count - 1 → origin i j < count
origin_lt i j count h = ground arith

origin_ne : (i j : ℕ) → origin i j ≢ i
origin_ne i j = ground arith

origin_injective : (i j k : ℕ) → origin i j ≡ origin i k → j ≡ k
origin_injective i j k e = ground arith

origin-target : (i k : ℕ) → k ≢ i → origin i (target i k) ≡ k
origin-target i k n = ground arith

target_lt : (i k count : ℕ) → k ≢ i → i < count → k < count → target i k < count - 1
target_lt i k count n l m = ground arith

module _ {W : Type 0} where
  shifted-origin :
      (i j : ℕ) (t : Vars W) → j < t.var_count - 1 → shifted i t j ≡ t.vars (origin i j)
  shifted-origin i j t l = elim (Bool-cases (ltb j i)) [
    | inl below ↦ let e : leb i j ≡ false = ground arith in rw (below, e) refl
    | inr above ↦
        let e : leb i j ≡ true = ground arith in
        let e' : ltb j (t.var_count - 1) ≡ true = ground arith in rw (above, e, e') refl
  ]

  remove_at-IsTable : (i : ℕ) (t : Vars W) → IsTable t → IsTable (remove_at (some i) t)
  unfolding remove_at
  remove_at-IsTable i t h = record {
    count_le = omega (arith, h.count_le);
    short = λ j l. rw (shifted-origin i j t l) (h.short (origin i j) (origin_lt i j t.var_count l));
    distinct = λ j k l m e.
        let e' = rw (shifted-origin i j t l, shifted-origin i k t m) at e in
        origin_injective i j k (
          h.distinct (origin i j) (origin i k) (origin_lt i j t.var_count l)
            (origin_lt i k t.var_count m) e');
  }

  remove_read :
      (name : List ℕ) (i : ℕ) (t : Vars W)
      → IsTable t
      → i < t.var_count
      → (t.vars i).name ≡ name
      → (n : List ℕ) → read n (remove_at (some i) t) ≡ (if streq name n then none else read n t)
  unfolding remove_at
  remove_read name i t h l own n = go (Bool-cases (streq name n)) (find_var-Finds n t) refl
    where
      t' : Vars W
      t' = remove_at (some i) t

      h' : IsTable t'
      h' = remove_at-IsTable i t h

      go :
          (streq name n ≡ true) ⊎ (streq name n ≡ false)
          → {r : Option ℕ} → Finds n t.vars 0 t.var_count r
          → find_var n t ≡ r
          → read n t' ≡ (if streq name n then none else read n t)
      go (inl same) f e =
          let name_n = (streq_iff name n).0 same in
          let gone = find_var_absent n t' λ j a e'.
            let e'' = rw (shifted-origin i j t a) at e' in
            absurd (
              origin_ne i j (
                h.distinct (origin i j) i (origin_lt i j t.var_count a) l
                  (e'' ∙ sym name_n ∙ sym own))) in
          rw (same, gone) refl
      go (inr other) (found k a m e first) at =
          let k_ne : k ≢ i = λ k_eq.
            cc ((streq_iff name n).1 (sym own ∙ ap (λ j. (t.vars j).name) (sym k_eq) ∙ e)) in
          let j_lt = target_lt i k t.var_count k_ne l m in
          let from =
            shifted-origin i (target i k) t j_lt ∙ ap (λ j. t.vars j) (origin-target i k k_ne) in
          let at' = find_var_unique h' n (target i k) j_lt (ap (λ v. v.name) from ∙ e) in
          rw (at, at', other, from) refl
      go (inr other) (missing none_of) at =
          let gone = find_var_absent n t' λ j a e'.
            none_of (origin i j) (omega arith) (origin_lt i j t.var_count a)
              (rw (shifted-origin i j t a) at e') in
          rw (at, gone, other) refl

  delete_at :
      (name : List ℕ) {t : Vars W} {r : Option ℕ}
      → IsTable t
      → Finds name t.vars 0 t.var_count r
      → find_var name t ≡ r
      → IsTable (remove_at r t)
        × ((n : List ℕ) → read n (remove_at r t) ≡ (if streq name n then none else read n t))
  delete_at name {t} h (found i a m e first) at =
      (remove_at-IsTable i t h, remove_read name i t h m e)
  delete_at name {t} h (missing none_of) at =
      unfold remove_at in
      (
        h,
        λ n. elim (Bool-cases (streq name n)) [
          | inl same ↦ rw (same, ← (streq_iff name n).0 same, at) refl
          | inr other ↦ rw other refl
        ],
      )

  -- Deleting a variable keeps the names apart and within their arrays, leaves the name without a
  -- value, and changes no other name.
  pub delete_var-IsDeleted :
      (name : List ℕ) {t : Vars W}
      → IsTable t
      → IsTable (delete_var name t)
        × ((n : List ℕ) → read n (delete_var name t) ≡ (if streq name n then none else read n t))
  unfolding delete_var
  delete_var-IsDeleted name {t} h = delete_at name h (find_var-Finds name t) refl
