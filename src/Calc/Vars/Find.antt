-- ===== src/Calc/Vars/Find.antt =====
-- What `find_var` finds.
use calculatoros.Prelude.{
  ℕ, zero, suc, ◌+◌, ◌<◌, ◌≤◌, ◌≡◌, ◌≢◌, ◌⊎◌, inl, inr, refl, false, Option, none, some, List,
  arith, Bool-cases,
}
use calculatoros.CString.{streq}
use calculatoros.CString.Laws.{streq_iff}
use calculatoros.Calc.Vars.{Variable, Vars, find_from, find_var}

streq-ne : (a b : List ℕ) → streq a b ≡ false → a ≢ b
streq-ne a b h e = cc ((streq_iff a b).1 e)

Nat_cases : (a b : ℕ) → (a ≡ b) ⊎ ((a < b) ⊎ (b < a))
Nat_cases a b = omega arith

module _ {W : Type 0} where
  -- The first of the variables at indices `i` to `n` that has the name, or none of them.
  pub data Finds (name : List ℕ) (vars : ℕ → Variable W) (i : ℕ) (n : ℕ) : Option ℕ → Type 0 where
    found :
        (k : ℕ)
        → i ≤ k
        → k < n
        → (vars k).name ≡ name
        → ((j : ℕ) → i ≤ j → j < k → (vars j).name ≢ name)
        → Finds name vars i n (some k)
    missing : ((j : ℕ) → i ≤ j → j < n → (vars j).name ≢ name) → Finds name vars i n none

  name_at :
      (name : List ℕ) (vars : ℕ → Variable W) (i j : ℕ)
      → (vars i).name ≢ name
      → ((k : ℕ) → i + 1 ≤ k → k < j → (vars k).name ≢ name)
      → (k : ℕ) → i ≤ k
      → k < j
      → (vars k).name ≢ name
  name_at name vars i j here later k h l = go (omega arith)
    where
      go : (k ≡ i) ⊎ (i + 1 ≤ k) → (vars k).name ≢ name
      go (inl e) = rw e here
      go (inr g) = later k g l

  later-Finds :
      (name : List ℕ) (vars : ℕ → Variable W) (i n : ℕ) {r : Option ℕ}
      → (vars i).name ≢ name
      → Finds name vars (i + 1) n r
      → Finds name vars i n r
  later-Finds name vars i n h (found k l m e first) =
      found k (omega arith) m e (name_at name vars i k h first)
  later-Finds name vars i n h (missing none_of) = missing (name_at name vars i n h none_of)

  find_from-Finds :
      (name : List ℕ) (vars : ℕ → Variable W) (left i n : ℕ)
      → i + left ≡ n
      → Finds name vars i n (find_from name vars left i)
  unfolding find_from
  find_from-Finds name vars zero i n e = missing (λ j l m. absurd (omega arith))
  find_from-Finds name vars (suc left) i n e = elim (Bool-cases (streq (vars i).name name)) [
    | inl same ↦ rw same (
        found i (omega arith) (omega arith) ((streq_iff _ name).0 same)
          (λ j l m. absurd (omega arith)))
    | inr other ↦ rw other (
        later-Finds name vars i n (streq-ne _ name other)
          (find_from-Finds name vars left (i + 1) n (omega arith)))
  ]

  pub find_var-Finds :
      (name : List ℕ) (t : Vars W) → Finds name t.vars 0 t.var_count (find_var name t)
  unfolding find_var
  find_var-Finds name t = find_from-Finds name t.vars t.var_count 0 t.var_count (omega arith)

  -- A variable whose name no earlier one has is found.
  pub find_var_at :
      (name : List ℕ) (t : Vars W) (i : ℕ)
      → i < t.var_count
      → (t.vars i).name ≡ name
      → ((j : ℕ) → j < i → (t.vars j).name ≢ name)
      → find_var name t ≡ some i
  find_var_at name t i l e first = at (find_var-Finds name t)
    where
      at : {r : Option ℕ} → Finds name t.vars 0 t.var_count r → r ≡ some i
      at (found k h m e' first') = elim (Nat_cases k i) [
        | inl same ↦ rw same refl
        | inr (inl below) ↦ absurd (first k below e')
        | inr (inr above) ↦ absurd (first' i (omega arith) above e)
      ]
      at (missing none_of) = absurd (none_of i (omega arith) l e)

  pub find_var_absent :
      (name : List ℕ) (t : Vars W)
      → ((j : ℕ) → j < t.var_count → (t.vars j).name ≢ name)
      → find_var name t ≡ none
  find_var_absent name t h = at (find_var-Finds name t)
    where
      at : {r : Option ℕ} → Finds name t.vars 0 t.var_count r → r ≡ none
      at (found k l m e first) = absurd (h k m e)
      at (missing none_of) = refl
