-- ===== src/Jit.antt =====
-- The assembler of jit.c: one line of text to machine code, and the pool the code runs in. A
-- position in the line is the rest of the line from there on.
pub mod Encode
pub mod Branches
pub mod Short
pub mod Bounds
pub mod Dead
pub mod Moves
pub mod Pool
mod Tests
use calculatoros.Prelude.{
  ℕ, zero, suc, ◌+◌, ◌*◌, ◌/◌, ◌%◌, ◌^◌, Bool, true, false, Option, none, some, List, [], ◌∷◌, ◌++◌,
  leb, length, if◌then◌else◌,
}
use calculatoros.Memory.{Mem, store}
use calculatoros.Number.{print_hex}
use calculatoros.CString.{skip}
use calculatoros.Jit.Branches.{Branch, branches}

-- The chain of `else if`: the first branch whose test holds. `none` is `return 0`.
unfoldable pub dispatch : List Branch → List ℕ → Option (List ℕ)
dispatch [] s = none
dispatch (b ∷ bs) s = let rest = dispatch bs s in if b.test s then b.encode s else rest

-- The bytes of the line, without the final `ret`.
unfoldable pub assemble : List ℕ → Option (List ℕ)
assemble line = dispatch branches (skip b' ' line)

-- `jit_pool`, which starts at 0, and `jit_offset`.
pub record Jit : Type 0 where
  pub pool : Mem
  pub offset : ℕ

abbrev pub pool_size : ℕ
pool_size = 4096

-- The reset and the alignment to 16 at the start of `assemble_and_execute`.
unfoldable pub make_room : ℕ → ℕ
make_room offset =
    let from = if leb pool_size ((offset + 128) % 2 ^ 32) then 0 else offset in
    (from + 15) / 16 * 16

-- `emit_byte` for each byte from `code` on.
unfoldable pub emit : ℕ → List ℕ → Mem → Mem
emit at [] m = m
emit at (b ∷ bs) m = emit (at + 1) bs (store m at b)

-- The code with its final `ret` (0xC3) in the pool.
unfoldable pub place : List ℕ → Jit → Jit
place code jit = record jit { pool = emit jit.offset (code ++ (195 ∷ [])) jit.pool }

-- What `assemble_and_execute` returns, what it prints of the result, and the new state. `run` is
-- the machine: the value of `eax` and the memory after the code at an address has been called.
module _ (run : Mem → ℕ → ℕ × Mem) where
  unfoldable pub execute : List ℕ → Jit → Bool × (List ℕ × Jit)
  execute code jit =
      let placed = place code jit in
      let after = run placed.pool jit.offset in
      (true, (print_hex after.0, record { pool = after.1; offset = jit.offset + length code + 1 }))

  -- `none` has returned 0 before anything is emitted.
  unfoldable pub finish : Option (List ℕ) → Jit → Bool × (List ℕ × Jit)
  finish none jit = (false, ([], jit))
  finish (some code) jit = execute code jit

  unfoldable pub assemble_and_execute : List ℕ → Jit → Bool × (List ℕ × Jit)
  assemble_and_execute line jit =
      finish (assemble line) (record jit { offset = make_room jit.offset })
