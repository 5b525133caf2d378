-- ===== src/Jit/Dead.antt =====
-- Branches of `assemble_and_execute` that are never taken.
use calculatoros.Prelude.{
  ℕ, ◌+◌, ◌≡◌, refl, Bool, true, false, some, List, [], ◌∷◌, ◌++◌, take, drop, ◌||◌, ◌∙◌, arith,
  inl, inr, Bool-cases,
}
use calculatoros.CString.{ascii, starts_with}
use calculatoros.Jit.{dispatch}
use calculatoros.Jit.Encode.{with_reg}
use calculatoros.Jit.Branches.{Branch, prefix, retf_immediate, push_immediate, branches}

-- Some branch of the list is taken.
fires : List Branch → List ℕ → Bool
fires [] s = false
fires (b ∷ bs) s = b.test s || fires bs s

dispatch_skip :
    (before : List Branch) (b : Branch) (later : List Branch) (s : List ℕ)
    → (b.test s ≡ true → fires before s ≡ true)
    → dispatch (before ++ (b ∷ later)) s ≡ dispatch (before ++ later) s
unfolding dispatch fires
dispatch_skip [] b later s h = ground arith
dispatch_skip (c ∷ before) b later s h = elim (Bool-cases (c.test s)) [
  | inl y ↦ ground arith
  | inr n ↦
      let rest = dispatch_skip before b later s (λ t. ground (arith, h t)) in ground (arith, rest)
]

starts_with_shorter : (s p q : List ℕ) → starts_with s (p ++ q) ≡ true → starts_with s p ≡ true
unfolding starts_with
starts_with_shorter s [] q h = refl
starts_with_shorter [] (c ∷ p) q h = h
starts_with_shorter (d ∷ s) (c ∷ p) q h = ground (arith, starts_with_shorter s p q)

fires_at :
    (before : List Branch) (b : Branch) (later : List Branch) (s : List ℕ)
    → b.test s ≡ true
    → fires (before ++ (b ∷ later)) s ≡ true
unfolding fires
fires_at [] b later s h = ground arith
fires_at (c ∷ before) b later s h = ground (arith, fires_at before b later s h)

-- The assembler without its branches 10, 18 and 28: "retf", "retf <imm>" and "push <imm>".
unfoldable pub live_branches : List Branch
unfolding branches
live_branches =
    take 10 branches
    ++ (take 7 (drop 11 branches) ++ (take 9 (drop 19 branches) ++ drop 29 branches))

first : List Branch
unfolding branches
first = take 10 branches

second : List Branch
unfolding branches
second = take 7 (drop 11 branches)

third : List Branch
unfolding branches
third = take 9 (drop 19 branches)

ret : Branch
ret = prefix "ret" (λ s. some (195 ∷ []))

push : Branch
push = prefix "push " (with_reg (λ r s. some ((80 + r) ∷ [])))

-- The branches "retf", "retf <imm>" and "push <imm>" are never taken: without them the assembler
-- gives the same for every line.
pub dispatch-live : (s : List ℕ) → dispatch branches s ≡ dispatch live_branches s
unfolding branches live_branches first second third ret push
dispatch-live s =
    dispatch_skip first (prefix "retf" (λ s. some (203 ∷ []))) (drop 11 branches) s (λ t.
      fires_at (take 1 branches) ret (drop 2 first) s
        (starts_with_shorter s (ascii "ret") (ascii "f") t))
    ∙ dispatch_skip (first ++ second) retf_immediate (drop 19 branches) s (λ t.
      fires_at (take 1 branches) ret (drop 2 first ++ second) s
        (starts_with_shorter s (ascii "ret") (ascii "f ") t))
    ∙ dispatch_skip (first ++ (second ++ third)) push_immediate (drop 29 branches) s
        (λ t. fires_at (first ++ (second ++ take 8 third)) push [] s (ground arith))
