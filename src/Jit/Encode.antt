-- ===== src/Jit/Encode.antt =====
-- The parts of the encoders of jit.c: registers, immediates, and the bytes of a word.
use calculatoros.Prelude.{
  ℕ, ◌+◌, ◌*◌, ◌/◌, ◌%◌, ◌^◌, Option, none, some, List, [], ◌∷◌, length, drop, if◌then◌else◌, ◌||◌,
  ◌==◌,
}
use calculatoros.CString.{ascii, tail, starts_with, skip_to}
use calculatoros.Number.{parse_dec, parse_hex}

-- The names that `parse_reg` tries, in its order, with the numbers it returns.
abbrev pub registers : List (List ℕ × ℕ)
registers =
    (ascii "xmm0", 0)
    ∷ (ascii "xmm1", 1)
    ∷ (ascii "xmm2", 2)
    ∷ (ascii "xmm3", 3)
    ∷ (ascii "xmm4", 4)
    ∷ (ascii "xmm5", 5)
    ∷ (ascii "xmm6", 6)
    ∷ (ascii "xmm7", 7)
    ∷ (ascii "eax", 0)
    ∷ (ascii "ecx", 1)
    ∷ (ascii "edx", 2)
    ∷ (ascii "ebx", 3)
    ∷ (ascii "esp", 4)
    ∷ (ascii "ebp", 5)
    ∷ (ascii "esi", 6)
    ∷ (ascii "edi", 7)
    ∷ []

unfoldable pub reg_in : List (List ℕ × ℕ) → List ℕ → Option (ℕ × List ℕ)
reg_in [] s = none
reg_in ((name, r) ∷ regs) s =
    let rest = reg_in regs s in if starts_with s name then some (r, drop (length name) s) else rest

-- `parse_reg`: the register and the position after it; `none` is -1.
unfoldable pub parse_reg : List ℕ → Option (ℕ × List ℕ)
parse_reg s = reg_in registers s

-- An immediate: hexadecimal after "0x", else decimal.
unfoldable pub immediate : List ℕ → ℕ
immediate s = if starts_with s (ascii "0x") then parse_hex (drop 2 s) else parse_dec s

-- `while (*s == ' ' || *s == ',') s++;`
unfoldable pub skip_comma : List ℕ → List ℕ
skip_comma [] = []
skip_comma (c ∷ s) = let rest = skip_comma s in if c == b' ' || c == b',' then rest else c ∷ s

-- The position after the next `c`, or the end.
unfoldable pub after : ℕ → List ℕ → List ℕ
after c s = tail (skip_to c s)

-- `emit_dword` and `emit_word`.
unfoldable pub dword : ℕ → List ℕ
dword d = d % 256 ∷ d / 2 ^ 8 % 256 ∷ d / 2 ^ 16 % 256 ∷ d / 2 ^ 24 % 256 ∷ []

unfoldable pub word : ℕ → List ℕ
word w = w % 256 ∷ w / 2 ^ 8 % 256 ∷ []

-- `0xC0 | (r2 << 3) | r1`, where both are below 8.
unfoldable pub mod_rm : ℕ → ℕ → ℕ
mod_rm r2 r1 = 192 + r2 * 8 + r1

-- A branch that goes on with one register, or returns 0 where there is none.
unfoldable pub with_reg : (ℕ → List ℕ → Option (List ℕ)) → List ℕ → Option (List ℕ)
with_reg k s = elim (parse_reg s) [ none ↦ none | some (r, s') ↦ k r s' ]

-- A branch on two registers with blanks or commas between them.
unfoldable pub with_regs : (ℕ → ℕ → List ℕ) → List ℕ → Option (List ℕ)
with_regs k s = with_reg (λ r1 s'. with_reg (λ r2 s''. some (k r1 r2)) (skip_comma s')) s

-- A branch on a register and a register, or an immediate where the second is none.
unfoldable pub with_operand : (ℕ → ℕ → List ℕ) → (ℕ → ℕ → List ℕ) → ℕ → List ℕ → Option (List ℕ)
with_operand on_reg on_imm r1 s = elim (parse_reg s) [
  | none ↦ some (on_imm r1 (immediate s))
  | some (r2, s') ↦ some (on_reg r1 r2)
]
