-- ===== src/Fs/State.antt =====
-- The state of one mounted file system: `fs_instance_t` and the device behind it.
use calculatoros.Prelude.{ℕ, ◌+◌, ◌%◌, ◌^◌, Bool, ltb}
use calculatoros.Memory.{Mem}
use calculatoros.Fs.Layout.{max_inodes}
use calculatoros.Fs.Device.{Device}

-- `mem` is the memory from the address of the `fs_instance_t` on, and `stack` what a local buffer
-- holds that has not been written.
pub record Fs (D : Type 0) : Type 0 where
  pub mem : Mem
  pub disk : D
  pub stack : Mem

-- An inode number as a `uint32_t`: one above 2 ^ 31 is a negative `int`, and refused as well.
unfoldable pub valid_inode : ℕ → Bool
valid_inode i = ltb i max_inodes

-- Sector numbers are `uint32_t`.
abbrev pub sector : ℕ → ℕ → ℕ
sector start i = (start + i) % 2 ^ 32

module _ {D : Type 0} (dev : Device D) where
  -- The buffer after `dev_read(fs->dev, lba, 1, buf)`.
  unfoldable pub dev_read : Fs D → ℕ → Mem → Mem
  dev_read fs lba buf = dev.read fs.disk lba buf

  unfoldable pub dev_write : Fs D → ℕ → Mem → Fs D
  dev_write fs lba buf = record fs { disk = dev.write fs.disk lba buf }
