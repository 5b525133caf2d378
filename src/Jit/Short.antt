-- ===== src/Jit/Short.antt =====
-- The lengths of what the parts of the encoders emit.
use calculatoros.Prelude.{
  ℕ, ◌+◌, ◌*◌, ◌≤◌, ◌≡◌, Option, none, some, List, [], ◌∷◌, ◌++◌, length, drop, ◌==◌, arith,
  Bool-cases, inl, inr,
}
use calculatoros.CString.{head}
use calculatoros.Jit.{dispatch}
use calculatoros.Jit.Encode.{
  parse_reg, immediate, skip_comma, after, dword, mod_rm, with_reg, with_regs, with_operand,
}
use calculatoros.Jit.Branches.{Branch, store_register, load_operand, load_register, two_operands}

-- A body emits at most seven bytes.
abbrev pub Short : (List ℕ → Option (List ℕ)) → Type 0
Short body = (s code : List ℕ) → body s ≡ some code → length code ≤ 7

infixr 67 ◌⨾◌
pub data AllShort : List Branch → Type 0 where
  done : AllShort []
  ◌⨾◌ : {b : Branch} → {bs : List Branch} → Short b.encode → AllShort bs → AllShort (b ∷ bs)

pub some-Short : (code code' : List ℕ) → length code ≤ 7 → some code ≡ some code' → length code' ≤ 7
some-Short code code' h e = ground arith

pub const-Short :
    (f : List ℕ → List ℕ) → ((s : List ℕ) → length (f s) ≤ 7) → Short (λ s. some (f s))
const-Short f h s code e = some-Short (f s) code (h s) e

pub with_reg-Short :
    (k : ℕ → List ℕ → Option (List ℕ)) → ((r : ℕ) → Short (k r)) → Short (with_reg k)
unfolding with_reg
with_reg-Short k h s code e = go (parse_reg s) e
  where
    go :
        (o : Option (ℕ × List ℕ))
        → elim o [ none ↦ none | some (r, s') ↦ k r s' ] ≡ some code
        → length code ≤ 7
    go none e' = ground arith
    go (some (r, s')) e' = h r s' code e'

pub with_operand-Short :
    (on_reg on_imm : ℕ → ℕ → List ℕ) (r1 : ℕ)
    → ((r v : ℕ) → length (on_reg r v) ≤ 7)
    → ((r v : ℕ) → length (on_imm r v) ≤ 7)
    → Short (with_operand on_reg on_imm r1)
unfolding with_operand
with_operand-Short on_reg on_imm r1 h h' s code e = go (parse_reg s) e
  where
    go :
        (o : Option (ℕ × List ℕ))
        → elim o [ none ↦ some (on_imm r1 (immediate s)) | some (r2, s') ↦ some (on_reg r1 r2) ]
          ≡ some code
        → length code ≤ 7
    go none e' = some-Short (on_imm r1 (immediate s)) code (h' r1 (immediate s)) e'
    go (some (r2, s')) e' = some-Short (on_reg r1 r2) code (h r1 r2) e'

pub two_operands-Short :
    (on_reg on_imm : ℕ → ℕ → List ℕ)
    → ((r v : ℕ) → length (on_reg r v) ≤ 7)
    → ((r v : ℕ) → length (on_imm r v) ≤ 7)
    → Short (two_operands on_reg on_imm)
unfolding two_operands
two_operands-Short on_reg on_imm h h' =
    with_reg-Short (λ r1 s. with_operand on_reg on_imm r1 (skip_comma s))
      (λ r1 s. with_operand-Short on_reg on_imm r1 h h' (skip_comma s))

pub with_regs-Short : (k : ℕ → ℕ → List ℕ) → ((r v : ℕ) → length (k r v) ≤ 7) → Short (with_regs k)
unfolding with_regs
with_regs-Short k h =
    with_reg-Short (λ r1 s'. with_reg (λ r2 s''. some (k r1 r2)) (skip_comma s'))
      (λ r1 s'.
        with_reg-Short (λ r2 s''. some (k r1 r2)) (λ r2. const-Short (λ s. k r1 r2) (λ s. h r1 r2))
          (skip_comma s'))

pub store_register-Short : Short store_register
unfolding store_register dword
store_register-Short s =
    with_reg-Short (λ r s'. some ((184 ∷ dword (immediate s)) ++ (137 ∷ r * 8 ∷ [])))
      (λ r.
        const-Short (λ s'. (184 ∷ dword (immediate s)) ++ (137 ∷ r * 8 ∷ [])) (λ s'. omega arith))
      (skip_comma (after b']' s))

pub load_operand-Short : (r1 : ℕ) → Short (load_operand r1)
unfolding load_operand dword mod_rm
load_operand-Short r1 s code e =
    let on_operand =
      with_operand-Short (λ r1 r2. 137 ∷ mod_rm r2 r1 ∷ []) (λ r1 v. (184 + r1) ∷ dword v) r1
        (λ r v. omega arith) (λ r v. omega arith) in
    elim (Bool-cases (head s == b'[')) [
      | inl y ↦
          some-Short ((184 ∷ dword (immediate (drop 1 s))) ++ (139 ∷ r1 * 8 ∷ [])) code
            (omega arith) (ground arith)
      | inr n ↦ on_operand s code (ground arith)
    ]

pub load_register-Short : Short load_register
unfolding load_register
load_register-Short =
    with_reg-Short (λ r1 s. load_operand r1 (skip_comma s))
      (λ r1 s. load_operand-Short r1 (skip_comma s))

pub dispatch-Short : (bs : List Branch) → AllShort bs → Short (dispatch bs)
unfolding dispatch
dispatch-Short [] done s code e = ground arith
dispatch-Short (b ∷ bs) (h ⨾ hs) s code e = elim (Bool-cases (b.test s)) [
  | inl y ↦ h s code (ground arith)
  | inr n ↦ dispatch-Short bs hs s code (ground arith)
]

pub AllShort-append : (xs bs : List Branch) → AllShort xs → AllShort bs → AllShort (xs ++ bs)
AllShort-append [] bs done h' = h'
AllShort-append (x ∷ xs) bs (h ⨾ hs) h' = h ⨾ AllShort-append xs bs hs h'
