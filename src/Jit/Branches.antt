-- ===== src/Jit/Branches.antt =====
-- The branches of `assemble_and_execute` in jit.c, in the order of its `else if`. Where the source
-- has `|` on numbers without a common bit, there is `+`.
use Prim.Native.Nat.{bit_or}
use Prim.Native.String.{String}
use calculatoros.Prelude.{
  ℕ, ◌+◌, ◌*◌, ◌%◌, ◌^◌, Bool, Option, some, List, [], ◌∷◌, ◌++◌, leb, ltb, length, drop, ◌&&◌,
  if◌then◌else◌, ◌==◌,
}
use calculatoros.CString.{ascii, head, starts_with}
use calculatoros.Number.{parse_dec}
use calculatoros.Jit.Encode.{
  immediate, skip_comma, after, dword, word, mod_rm, with_reg, with_regs, with_operand,
}

-- The test of a branch, and its body on the line.
pub record Branch : Type 0 where
  pub test : List ℕ → Bool
  pub encode : List ℕ → Option (List ℕ)

-- `!strncmp(&asm_line[pos], p, n)` with `n` the length of `p`, and a body that goes on after it.
abbrev pub prefix : String → (List ℕ → Option (List ℕ)) → Branch
prefix p body = record {
  test = λ s. starts_with s (ascii p);
  encode = λ s. body (drop (length (ascii p)) s);
}

-- `retf <imm>`.
abbrev pub retf_immediate : Branch
retf_immediate = prefix "retf " (λ s. some (202 ∷ word (parse_dec s % 2 ^ 16)))

-- `push <imm>`: what follows "push " is at least '0'. A `char` is signed.
abbrev pub push_immediate : Branch
push_immediate = record {
  test = λ s.
      starts_with s (ascii "push ") && (leb b'0' (head (drop 5 s)) && ltb (head (drop 5 s)) 128);
  encode = λ s. some (104 ∷ dword (immediate (drop 5 s)));
}

-- A register after blanks, into the memory at the address in the brackets.
unfoldable pub store_register : List ℕ → Option (List ℕ)
store_register s =
    with_reg (λ r s'. some ((184 ∷ dword (immediate s)) ++ (137 ∷ r * 8 ∷ [])))
      (skip_comma (after b']' s))

-- What `mov` reads after its first register: an address in brackets, a register or an immediate.
unfoldable pub load_operand : ℕ → List ℕ → Option (List ℕ)
load_operand r1 s =
    if head s == b'['
    then some ((184 ∷ dword (immediate (drop 1 s))) ++ (139 ∷ r1 * 8 ∷ []))
    else with_operand (λ r1 r2. 137 ∷ mod_rm r2 r1 ∷ []) (λ r1 v. (184 + r1) ∷ dword v) r1 s

unfoldable pub load_register : List ℕ → Option (List ℕ)
load_register = with_reg (λ r1 s. load_operand r1 (skip_comma s))

unfoldable pub two_operands : (ℕ → ℕ → List ℕ) → (ℕ → ℕ → List ℕ) → List ℕ → Option (List ℕ)
two_operands on_reg on_imm = with_reg (λ r1 s. with_operand on_reg on_imm r1 (skip_comma s))

-- `nop` to `iret`.
abbrev pub system_branches : List Branch
system_branches =
    prefix "nop" (λ s. some (144 ∷ []))
    ∷ prefix "ret" (λ s. some (195 ∷ []))
    ∷ prefix "ud2" (λ s. some (15 ∷ 11 ∷ []))
    ∷ prefix "int " (λ s. some (205 ∷ immediate s % 256 ∷ []))
    ∷ prefix "int1" (λ s. some (205 ∷ 1 ∷ []))
    ∷ prefix "int3" (λ s. some (204 ∷ []))
    ∷ prefix "into" (λ s. some (206 ∷ []))
    ∷ prefix "icebp" (λ s. some (241 ∷ []))
    ∷ prefix "popf" (λ s. some (157 ∷ []))
    ∷ prefix "pushf" (λ s. some (156 ∷ []))
    ∷ prefix "retf" (λ s. some (203 ∷ []))
    ∷ prefix "iret" (λ s. some (207 ∷ []))
    ∷ []

-- `lcall` to `retf <imm>`.
abbrev pub control_branches : List Branch
control_branches =
    prefix "lcall " (λ s. some ((154 ∷ dword (immediate s)) ++ word (immediate (after b':' s))))
    ∷ prefix "lret" (λ s. some (203 ∷ []))
    ∷ prefix "mov cr0, " (with_reg (λ r s. some (15 ∷ 34 ∷ (192 + r * 8) ∷ [])))
    ∷ prefix "mov eax, cr0" (λ s. some (15 ∷ 32 ∷ 192 ∷ []))
    ∷ prefix "lgdt " (λ s. some (15 ∷ 1 ∷ 21 ∷ dword (immediate s)))
    ∷ prefix "lidt " (λ s. some (15 ∷ 1 ∷ 29 ∷ dword (immediate s)))
    ∷ retf_immediate
    ∷ []

-- `xor ax, ax` to `mov dr1, `.
abbrev pub segment_branches : List Branch
segment_branches =
    prefix "xor ax, ax" (λ s. some (49 ∷ 192 ∷ []))
    ∷ prefix "mov ds, ax" (λ s. some (142 ∷ 216 ∷ []))
    ∷ prefix "mov es, ax" (λ s. some (142 ∷ 192 ∷ []))
    ∷ prefix "mov fs, ax" (λ s. some (142 ∷ 224 ∷ []))
    ∷ prefix "mov gs, ax" (λ s. some (142 ∷ 232 ∷ []))
    ∷ prefix "mov ss, ax" (λ s. some (142 ∷ 208 ∷ []))
    ∷ prefix "mov dr0, " (with_reg (λ r s. some (15 ∷ 35 ∷ (192 + r * 8) ∷ [])))
    ∷ prefix "mov dr1, " (with_reg (λ r s. some (15 ∷ 35 ∷ bit_or 200 (r * 8) ∷ [])))
    ∷ []

-- `push` to `mov`.
abbrev pub move_branches : List Branch
move_branches =
    prefix "push " (with_reg (λ r s. some ((80 + r) ∷ [])))
    ∷ push_immediate
    ∷ prefix "pop " (with_reg (λ r s. some ((88 + r) ∷ [])))
    ∷ prefix "mov [" store_register
    ∷ prefix "mov " load_register
    ∷ []

-- `add`, `sub` and `cmp`.
abbrev pub arithmetic_branches : List Branch
arithmetic_branches =
    prefix "add "
      (two_operands (λ r1 r2. 1 ∷ mod_rm r2 r1 ∷ []) (λ r1 v. 129 ∷ (192 + r1) ∷ dword v))
    ∷ prefix "sub "
        (two_operands (λ r1 r2. 41 ∷ mod_rm r2 r1 ∷ []) (λ r1 v. 129 ∷ (232 + r1) ∷ dword v))
    ∷ prefix "cmp " (with_regs (λ r1 r2. 57 ∷ mod_rm r2 r1 ∷ []))
    ∷ []

-- `je` to `xorps`.
abbrev pub jump_branches : List Branch
jump_branches =
    prefix "je " (λ s. some (116 ∷ parse_dec s % 256 ∷ []))
    ∷ prefix "jne " (λ s. some (117 ∷ parse_dec s % 256 ∷ []))
    ∷ prefix "inc " (with_reg (λ r s. some ((64 + r) ∷ [])))
    ∷ prefix "dec " (with_reg (λ r s. some ((72 + r) ∷ [])))
    ∷ prefix "div " (with_reg (λ r s. some (247 ∷ (240 + r) ∷ [])))
    ∷ prefix "idiv " (with_reg (λ r s. some (247 ∷ (248 + r) ∷ [])))
    ∷ prefix "jmp " (λ s. some ((184 ∷ dword (parse_dec s)) ++ (255 ∷ 224 ∷ [])))
    ∷ prefix "jmpf " (λ s. some ((234 ∷ dword (immediate s)) ++ word (immediate (after b':' s))))
    ∷ prefix "addof " (
        with_reg (λ r s. some ((129 ∷ (192 + r) ∷ dword (immediate (skip_comma s))) ++ (206 ∷ []))))
    ∷ prefix "divss " (with_regs (λ r1 r2. 243 ∷ 15 ∷ 94 ∷ mod_rm r2 r1 ∷ []))
    ∷ prefix "xorps " (with_regs (λ r1 r2. 15 ∷ 87 ∷ mod_rm r2 r1 ∷ []))
    ∷ []

unfoldable pub branches : List Branch
branches =
    system_branches
    ++ (control_branches
        ++ (segment_branches ++ (move_branches ++ (arithmetic_branches ++ jump_branches))))
