-- ===== src/Jit/Moves.antt =====
-- The code of `mov`, from the text of its operands.
use calculatoros.Prelude.{
  ℕ, zero, suc, ◌+◌, ◌*◌, ◌<◌, ◌≡◌, refl, ap, sym, ◌∙◌, true, false, none, some, List, [], ◌∷◌,
  ◌++◌, ◌==◌, arith, get_or, ◌||◌,
}
use calculatoros.CString.{ascii, starts_with, skip}
use calculatoros.Number.{u32_mod, is_digit, parse_dec, print_dec}
use calculatoros.Number.RoundTrip.{parse_dec-print_dec}
use calculatoros.Number.Digits.{AreDigits, last, more, print_dec-AreDigits}
use calculatoros.Jit.{dispatch, assemble}
use calculatoros.Jit.Encode.{
  reg_in, parse_reg, immediate, skip_comma, dword, with_reg, with_operand, mod_rm,
}
use calculatoros.Jit.Branches.{branches, load_register, load_operand}

-- The names of the general registers, in the order of their numbers.
pub reg_names : List (List ℕ)
reg_names =
    ascii "eax"
    ∷ ascii "ecx"
    ∷ ascii "edx"
    ∷ ascii "ebx"
    ∷ ascii "esp"
    ∷ ascii "ebp"
    ∷ ascii "esi"
    ∷ ascii "edi"
    ∷ []

not_hex : (s : List ℕ) → AreDigits s → starts_with s (ascii "0x") ≡ false
unfolding starts_with
not_hex _ (last {c} h) = ground arith
not_hex _ (more {c} h (last {c = c'} h')) = ground arith
not_hex _ (more {c} h (more {c = c'} h' hs)) = ground arith

immediate-digits : (s : List ℕ) → AreDigits s → immediate s ≡ parse_dec s
unfolding immediate
immediate-digits s h = rw (not_hex s h) refl

no_reg : (c : ℕ) (s : List ℕ) → is_digit c ≡ true → parse_reg (c ∷ s) ≡ none
unfolding parse_reg reg_in starts_with
no_reg c s h =
    let x : (c == b'x') ≡ false = ground arith in
    let e : (c == b'e') ≡ false = ground arith in rw (x, e) refl

no_operand :
    (on_reg on_imm : ℕ → ℕ → List ℕ) (r : ℕ) (s : List ℕ)
    → parse_reg s ≡ none
    → with_operand on_reg on_imm r s ≡ some (on_imm r (immediate s))
unfolding with_operand
no_operand on_reg on_imm r s h = rw (with_operand, h) refl

-- The operand of `mov` once its first register and the comma are read.
operand_at :
    (r c : ℕ) (s : List ℕ)
    → is_digit c ≡ true
    → AreDigits (c ∷ s)
    → load_operand r (skip_comma (c ∷ s)) ≡ some ((184 + r) ∷ dword (parse_dec (c ∷ s)))
unfolding load_operand skip_comma
operand_at r c s h hs =
    let blank : (c == b' ' || c == b',') ≡ false = ground arith in
    let bracket : (c == b'[') ≡ false = ground arith in
    rw (blank, bracket)
      (no_operand (λ r1 r2. 137 ∷ mod_rm r2 r1 ∷ []) (λ r1 v. (184 + r1) ∷ dword v) r (c ∷ s)
          (no_reg c s h)
        ∙ ap (λ v. some ((184 + r) ∷ dword v)) (immediate-digits (c ∷ s) hs))

-- A line `mov <reg>, <digits>`, whatever the register.
mov_digits :
    (r c : ℕ) (s : List ℕ)
    → r < 8
    → is_digit c ≡ true
    → AreDigits (c ∷ s)
    → assemble (ascii "mov " ++ (get_or reg_names r [] ++ (ascii ", " ++ (c ∷ s))))
      ≡ some ((184 + r) ∷ dword (parse_dec (c ∷ s)))
unfolding assemble dispatch branches reg_names starts_with skip load_register with_reg parse_reg
    reg_in skip_comma
mov_digits zero c s k h hs =
    let cr : (c == b'c') ≡ false = ground arith in rw cr (operand_at 0 c s h hs)
mov_digits (suc zero) c s k h hs = operand_at 1 c s h hs
mov_digits (suc (suc zero)) c s k h hs = operand_at 2 c s h hs
mov_digits (suc (suc (suc zero))) c s k h hs = operand_at 3 c s h hs
mov_digits (suc (suc (suc (suc zero)))) c s k h hs = operand_at 4 c s h hs
mov_digits (suc (suc (suc (suc (suc zero))))) c s k h hs = operand_at 5 c s h hs
mov_digits (suc (suc (suc (suc (suc (suc zero)))))) c s k h hs = operand_at 6 c s h hs
mov_digits (suc (suc (suc (suc (suc (suc (suc zero))))))) c s k h hs = operand_at 7 c s h hs
mov_digits (suc (suc (suc (suc (suc (suc (suc (suc r)))))))) c s k h hs = absurd (omega (arith, k))

mov_text :
    (r num : ℕ) (s : List ℕ)
    → r < 8
    → AreDigits s
    → parse_dec s ≡ num
    → assemble (ascii "mov " ++ (get_or reg_names r [] ++ (ascii ", " ++ s)))
      ≡ some ((184 + r) ∷ dword num)
mov_text r num _ k (last {c} h) e =
    mov_digits r c [] k h (last h) ∙ ap (λ v. some ((184 + r) ∷ dword v)) e
mov_text r num _ k (more {c} {s} h hs) e =
    mov_digits r c s k h (more h hs) ∙ ap (λ v. some ((184 + r) ∷ dword v)) e

++_nil : (s : List ℕ) → s ++ [] ≡ s
++_nil [] = refl
++_nil (c ∷ s) = ap (λ t. c ∷ t) (++_nil s)

-- The value that the processor reads from the bytes of an immediate.
unfoldable pub little_endian : List ℕ → ℕ
little_endian [] = 0
little_endian (b ∷ bs) = b + 256 * little_endian bs

little_endian-dword : (num : ℕ) → num < u32_mod → little_endian (dword num) ≡ num
unfolding little_endian dword
little_endian-dword num h = omega arith

-- `mov <reg>, <num>`, with the number as `print_dec` prints it, assembles for each of the eight
-- registers to the opcode 0xB8 plus the register's number, and four bytes that the processor reads
-- as the number.
pub assemble-print_dec :
    (r num : ℕ)
    → r < 8
    → num < u32_mod
    → (assemble (ascii "mov " ++ (get_or reg_names r [] ++ (ascii ", " ++ print_dec num)))
        ≡ some ((184 + r) ∷ dword num))
      × little_endian (dword num) ≡ num
assemble-print_dec r num k h = (
  mov_text r num (print_dec num) k (print_dec-AreDigits num)
      (ap parse_dec (sym (++_nil (print_dec num))) ∙ parse_dec-print_dec num [] h refl),
  little_endian-dword num h,
)
