-- ===== src/Bitmap.antt =====
-- Bitmaps, one bit to a page (kernel.c), an inode or a block (fs.c), eight to a byte.
pub mod Laws
use Prim.Native.Nat.{bit_and, bit_or}
use calculatoros.Prelude.{ℕ, ◌+◌, ◌-◌, ◌/◌, ◌%◌, ◌^◌, Bool, not, ◌==◌}
use calculatoros.Memory.{Mem, store}

-- `byte & (1 << k)`, as a truth value.
unfoldable pub test_bit : ℕ → ℕ → Bool
test_bit byte k = not (bit_and byte (2 ^ k) == 0)

-- `byte |= (1 << k)` on a `uint8_t`.
unfoldable pub set_bit : ℕ → ℕ → ℕ
set_bit byte k = bit_or byte (2 ^ k)

-- `byte &= ~(1 << k)` on a `uint8_t`.
unfoldable pub clear_bit : ℕ → ℕ → ℕ
clear_bit byte k = bit_and byte (255 - 2 ^ k)

-- The bitmap starts at the address `base`.
module _ (base : ℕ) where
  unfoldable pub test : Mem → ℕ → Bool
  test m i = test_bit (m (base + i / 8)) (i % 8)

  unfoldable pub set : Mem → ℕ → Mem
  set m i = store m (base + i / 8) (set_bit (m (base + i / 8)) (i % 8))

  unfoldable pub clear : Mem → ℕ → Mem
  clear m i = store m (base + i / 8) (clear_bit (m (base + i / 8)) (i % 8))
