-- ===== src/Memory/Words.antt =====
-- `uint32_t` and `int` values in memory, little-endian.
use calculatoros.Prelude.{
  ℕ, ◌+◌, ◌*◌, ◌/◌, ◌%◌, ◌^◌, ◌<◌, ◌≤◌, ◌≡◌, ◌⊎◌, arith, if◌then◌else◌, ◌==◌,
}
use calculatoros.Memory.{Mem}

unfoldable pub load32 : Mem → ℕ → ℕ
load32 m a = m a + 256 * m (a + 1) + 65536 * m (a + 2) + 16777216 * m (a + 3)

unfoldable pub store32 : Mem → ℕ → ℕ → Mem
store32 m a v b =
    if a == b
    then v % 256
    else if a + 1 == b
    then v / 256 % 256
    else if a + 2 == b
    then v / 65536 % 256
    else if a + 3 == b
    then v / 16777216 % 256
    else m b

-- A word below 2 ^ 32 is read back as it was written.
pub load32-store32_self : (m : Mem) (a v : ℕ) → v < 2 ^ 32 → load32 (store32 m a v) a ≡ v
unfolding load32 store32
load32-store32_self m a v h = ground arith

pub store32_ne : (m : Mem) (a v b : ℕ) → (b < a) ⊎ (a + 4 ≤ b) → store32 m a v b ≡ m b
unfolding store32
store32_ne m a v b h = ground arith

-- A word elsewhere is not changed.
pub load32-store32_ne :
    (m : Mem) (a v b : ℕ) → (b + 4 ≤ a) ⊎ (a + 4 ≤ b) → load32 (store32 m a v) b ≡ load32 m b
unfolding load32 store32
load32-store32_ne m a v b h = ground arith
