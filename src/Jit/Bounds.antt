-- ===== src/Jit/Bounds.antt =====
-- The lengths of the codes that jit.c emits, branch by branch.
use Prim.Native.Nat.{bit_or}
use calculatoros.Prelude.{
  ℕ, ◌+◌, ◌*◌, ◌%◌, ◌≤◌, ◌≡◌, some, List, [], ◌∷◌, ◌++◌, length, drop, ◌^◌, arith,
}
use calculatoros.CString.{skip}
use calculatoros.Number.{parse_dec}
use calculatoros.Jit.{assemble}
use calculatoros.Jit.Encode.{immediate, skip_comma, after, dword, word, mod_rm}
use calculatoros.Jit.Branches.{
  system_branches, control_branches, segment_branches, move_branches, arithmetic_branches,
  jump_branches, branches,
}
use calculatoros.Jit.Short.{
  AllShort, done, ◌⨾◌, const-Short, with_reg-Short, two_operands-Short, with_regs-Short,
  store_register-Short, load_register-Short, dispatch-Short, AllShort-append,
}

system_branches-AllShort : AllShort system_branches
unfolding dword word mod_rm
system_branches-AllShort =
    (λ s. const-Short (λ s. (144 ∷ [])) (λ s. omega arith) (drop 3 s))
    ⨾ (λ s. const-Short (λ s. (195 ∷ [])) (λ s. omega arith) (drop 3 s))
    ⨾ (λ s. const-Short (λ s. (15 ∷ 11 ∷ [])) (λ s. omega arith) (drop 3 s))
    ⨾ (λ s. const-Short (λ s. (205 ∷ immediate s % 256 ∷ [])) (λ s. omega arith) (drop 4 s))
    ⨾ (λ s. const-Short (λ s. (205 ∷ 1 ∷ [])) (λ s. omega arith) (drop 4 s))
    ⨾ (λ s. const-Short (λ s. (204 ∷ [])) (λ s. omega arith) (drop 4 s))
    ⨾ (λ s. const-Short (λ s. (206 ∷ [])) (λ s. omega arith) (drop 4 s))
    ⨾ (λ s. const-Short (λ s. (241 ∷ [])) (λ s. omega arith) (drop 5 s))
    ⨾ (λ s. const-Short (λ s. (157 ∷ [])) (λ s. omega arith) (drop 4 s))
    ⨾ (λ s. const-Short (λ s. (156 ∷ [])) (λ s. omega arith) (drop 5 s))
    ⨾ (λ s. const-Short (λ s. (203 ∷ [])) (λ s. omega arith) (drop 4 s))
    ⨾ (λ s. const-Short (λ s. (207 ∷ [])) (λ s. omega arith) (drop 4 s))
    ⨾ done

control_branches-AllShort : AllShort control_branches
unfolding dword word mod_rm
control_branches-AllShort =
    (λ s.
      const-Short (λ s. ((154 ∷ dword (immediate s)) ++ word (immediate (after b':' s))))
        (λ s. omega arith) (drop 6 s))
    ⨾ (λ s. const-Short (λ s. (203 ∷ [])) (λ s. omega arith) (drop 4 s))
    ⨾ (λ s.
        with_reg-Short (λ r s. some (15 ∷ 34 ∷ (192 + r * 8) ∷ []))
          (λ r. const-Short (λ s. (15 ∷ 34 ∷ (192 + r * 8) ∷ [])) (λ s. omega arith)) (drop 9 s))
    ⨾ (λ s. const-Short (λ s. (15 ∷ 32 ∷ 192 ∷ [])) (λ s. omega arith) (drop 12 s))
    ⨾ (λ s. const-Short (λ s. (15 ∷ 1 ∷ 21 ∷ dword (immediate s))) (λ s. omega arith) (drop 5 s))
    ⨾ (λ s. const-Short (λ s. (15 ∷ 1 ∷ 29 ∷ dword (immediate s))) (λ s. omega arith) (drop 5 s))
    ⨾ (λ s. const-Short (λ s. 202 ∷ word (parse_dec s % 2 ^ 16)) (λ s. omega arith) (drop 5 s))
    ⨾ done

segment_branches-AllShort : AllShort segment_branches
unfolding dword word mod_rm
segment_branches-AllShort =
    (λ s. const-Short (λ s. (49 ∷ 192 ∷ [])) (λ s. omega arith) (drop 10 s))
    ⨾ (λ s. const-Short (λ s. (142 ∷ 216 ∷ [])) (λ s. omega arith) (drop 10 s))
    ⨾ (λ s. const-Short (λ s. (142 ∷ 192 ∷ [])) (λ s. omega arith) (drop 10 s))
    ⨾ (λ s. const-Short (λ s. (142 ∷ 224 ∷ [])) (λ s. omega arith) (drop 10 s))
    ⨾ (λ s. const-Short (λ s. (142 ∷ 232 ∷ [])) (λ s. omega arith) (drop 10 s))
    ⨾ (λ s. const-Short (λ s. (142 ∷ 208 ∷ [])) (λ s. omega arith) (drop 10 s))
    ⨾ (λ s.
        with_reg-Short (λ r s. some (15 ∷ 35 ∷ (192 + r * 8) ∷ []))
          (λ r. const-Short (λ s. (15 ∷ 35 ∷ (192 + r * 8) ∷ [])) (λ s. omega arith)) (drop 9 s))
    ⨾ (λ s.
        with_reg-Short (λ r s. some (15 ∷ 35 ∷ bit_or 200 (r * 8) ∷ []))
          (λ r. const-Short (λ s. (15 ∷ 35 ∷ bit_or 200 (r * 8) ∷ [])) (λ s. omega arith))
          (drop 9 s))
    ⨾ done

move_branches-AllShort : AllShort move_branches
unfolding dword word mod_rm
move_branches-AllShort =
    (λ s.
      with_reg-Short (λ r s. some ((80 + r) ∷ []))
        (λ r. const-Short (λ s. ((80 + r) ∷ [])) (λ s. omega arith)) (drop 5 s))
    ⨾ const-Short (λ s. 104 ∷ dword (immediate (drop 5 s))) (λ s. omega arith)
    ⨾ (λ s.
        with_reg-Short (λ r s. some ((88 + r) ∷ []))
          (λ r. const-Short (λ s. ((88 + r) ∷ [])) (λ s. omega arith)) (drop 4 s))
    ⨾ (λ s. store_register-Short (drop 5 s))
    ⨾ (λ s. load_register-Short (drop 4 s))
    ⨾ done

arithmetic_branches-AllShort : AllShort arithmetic_branches
unfolding dword word mod_rm
arithmetic_branches-AllShort =
    (λ s.
      two_operands-Short (λ r1 r2. 1 ∷ mod_rm r2 r1 ∷ []) (λ r1 v. 129 ∷ (192 + r1) ∷ dword v)
        (λ r v. omega arith) (λ r v. omega arith) (drop 4 s))
    ⨾ (λ s.
        two_operands-Short (λ r1 r2. 41 ∷ mod_rm r2 r1 ∷ []) (λ r1 v. 129 ∷ (232 + r1) ∷ dword v)
          (λ r v. omega arith) (λ r v. omega arith) (drop 4 s))
    ⨾ (λ s. with_regs-Short (λ r1 r2. 57 ∷ mod_rm r2 r1 ∷ []) (λ r v. omega arith) (drop 4 s))
    ⨾ done

jump_branches-AllShort : AllShort jump_branches
unfolding dword word mod_rm
jump_branches-AllShort =
    (λ s. const-Short (λ s. (116 ∷ parse_dec s % 256 ∷ [])) (λ s. omega arith) (drop 3 s))
    ⨾ (λ s. const-Short (λ s. (117 ∷ parse_dec s % 256 ∷ [])) (λ s. omega arith) (drop 4 s))
    ⨾ (λ s.
        with_reg-Short (λ r s. some ((64 + r) ∷ []))
          (λ r. const-Short (λ s. ((64 + r) ∷ [])) (λ s. omega arith)) (drop 4 s))
    ⨾ (λ s.
        with_reg-Short (λ r s. some ((72 + r) ∷ []))
          (λ r. const-Short (λ s. ((72 + r) ∷ [])) (λ s. omega arith)) (drop 4 s))
    ⨾ (λ s.
        with_reg-Short (λ r s. some (247 ∷ (240 + r) ∷ []))
          (λ r. const-Short (λ s. (247 ∷ (240 + r) ∷ [])) (λ s. omega arith)) (drop 4 s))
    ⨾ (λ s.
        with_reg-Short (λ r s. some (247 ∷ (248 + r) ∷ []))
          (λ r. const-Short (λ s. (247 ∷ (248 + r) ∷ [])) (λ s. omega arith)) (drop 5 s))
    ⨾ (λ s.
        const-Short (λ s. ((184 ∷ dword (parse_dec s)) ++ (255 ∷ 224 ∷ []))) (λ s. omega arith)
          (drop 4 s))
    ⨾ (λ s.
        const-Short (λ s. ((234 ∷ dword (immediate s)) ++ word (immediate (after b':' s))))
          (λ s. omega arith) (drop 5 s))
    ⨾ (λ s.
        with_reg-Short
          (λ r s. some ((129 ∷ (192 + r) ∷ dword (immediate (skip_comma s))) ++ (206 ∷ [])))
          (λ r.
            const-Short (λ s. ((129 ∷ (192 + r) ∷ dword (immediate (skip_comma s))) ++ (206 ∷ [])))
              (λ s. omega arith))
          (drop 6 s))
    ⨾ (λ s.
        with_regs-Short (λ r1 r2. 243 ∷ 15 ∷ 94 ∷ mod_rm r2 r1 ∷ []) (λ r v. omega arith)
          (drop 6 s))
    ⨾ (λ s. with_regs-Short (λ r1 r2. 15 ∷ 87 ∷ mod_rm r2 r1 ∷ []) (λ r v. omega arith) (drop 6 s))
    ⨾ done

-- Every instruction that the assembler accepts has at most seven bytes, before the final `ret`.
pub assemble-IsShort : (line code : List ℕ) → assemble line ≡ some code → length code ≤ 7
unfolding assemble branches
assemble-IsShort line code e =
    dispatch-Short branches
      (AllShort-append system_branches _ system_branches-AllShort (
        AllShort-append control_branches _ control_branches-AllShort (
          AllShort-append segment_branches _ segment_branches-AllShort (
            AllShort-append move_branches _ move_branches-AllShort (
              AllShort-append arithmetic_branches jump_branches arithmetic_branches-AllShort
                jump_branches-AllShort)))))
      (skip b' ' line) code e
