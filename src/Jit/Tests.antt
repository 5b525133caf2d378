-- ===== src/Jit/Tests.antt =====
-- Runs of the assembler.
use calculatoros.Prelude.{ℕ, ◌+◌, ◌≡◌, refl, some, List, [], ◌∷◌, ◌++◌, get_or, arith}
use calculatoros.CString.{ascii, starts_with, skip}
use calculatoros.Number.{print_dec, dec_loop, parse_dec, dec_from}
use calculatoros.Jit.{dispatch, assemble, Jit, place, make_room}
use calculatoros.Jit.Encode.{
  parse_reg, reg_in, immediate, skip_comma, dword, with_reg, with_regs, with_operand, mod_rm,
}
use calculatoros.Jit.Branches.{branches, two_operands}
use calculatoros.Jit.Moves.{reg_names, little_endian, assemble-print_dec}
use calculatoros.Jit.Pool.{IsPlaced, place-IsPlaced}

abbrev add_line : List ℕ
add_line = ascii "  add ebx, 0x10"

abbrev add_code : List ℕ
add_code = 129 ∷ 195 ∷ 16 ∷ 0 ∷ 0 ∷ 0 ∷ []

assemble_add : assemble add_line ≡ some add_code
unfolding assemble dispatch branches starts_with skip two_operands with_reg parse_reg reg_in
    skip_comma with_operand immediate dword calculatoros.Number.parse_hex
    calculatoros.Number.hex_from
assemble_add = refl

assemble_cmp : assemble (ascii "cmp ecx, edx") ≡ some (57 ∷ 209 ∷ [])
unfolding assemble dispatch branches starts_with skip with_regs with_reg parse_reg reg_in skip_comma
    mod_rm
assemble_cmp = refl

abbrev late : Jit
late = record { pool = λ a. 0; offset = 4000 }

assemble-print_dec_example :
    (assemble (ascii "mov " ++ (get_or reg_names 3 [] ++ (ascii ", " ++ print_dec 1000)))
      ≡ some ((184 + 3) ∷ dword 1000))
    × little_endian (dword 1000) ≡ 1000
assemble-print_dec_example = assemble-print_dec 3 1000 (omega arith) (omega arith)

place-IsPlaced_example :
    IsPlaced add_code
      (record late { offset = make_room 4000 })
      (place add_code (record late { offset = make_room 4000 }))
place-IsPlaced_example = place-IsPlaced add_line add_code late (omega arith) assemble_add
