-- ===== src/Fs/Device.antt =====
-- The block device under the file system: `dev_read` and `dev_write` of fs.c reach it through the
-- function pointers of `block_device_t`, one sector at a time.
pub mod Ram
use calculatoros.Prelude.{ℕ, ◌<◌, ◌≡◌, ◌≢◌}
use calculatoros.Memory.{Mem}

-- `D` is the state of the device. `read d lba buf` is what the buffer holds after the call, if it
-- held `buf` before; a failed read may leave any part of it. The callers look at no return value.
pub record Device (D : Type 0) : Type 0 where
  pub read : D → ℕ → Mem → Mem
  pub write : D → ℕ → Mem → D

-- What the file system relies on: below its capacity the device keeps what is written.
pub record IsReliable {D : Type 0} (dev : Device D) (capacity : ℕ) : Type 0 where
  pub read-write_self :
      (d : D) (lba : ℕ) (b buf : Mem) (i : ℕ)
      → lba < capacity
      → i < 512
      → dev.read (dev.write d lba b) lba buf i ≡ b i
  pub read-write_ne :
      (d : D) (lba other : ℕ) (b buf : Mem) (i : ℕ)
      → lba < capacity
      → other < capacity
      → lba ≢ other
      → i < 512
      → dev.read (dev.write d lba b) other buf i ≡ dev.read d other buf i
  -- A read fills the whole sector.
  pub read_fills :
      (d : D) (lba : ℕ) (buf buf' : Mem) (i : ℕ)
      → lba < capacity
      → i < 512
      → dev.read d lba buf i ≡ dev.read d lba buf' i
