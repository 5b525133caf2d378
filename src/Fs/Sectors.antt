-- ===== src/Fs/Sectors.antt =====
-- Reading a sector after writing one, on a reliable device.
use calculatoros.Prelude.{ℕ, ◌<◌, ◌≡◌, ◌≢◌}
use calculatoros.Memory.{Mem}
use calculatoros.Fs.Device.{Device, IsReliable}
use calculatoros.Fs.State.{Fs, dev_read, dev_write}

-- The sectors that the file system addresses: those before the data, and 4096 of data.
abbrev pub needed_sectors : ℕ
needed_sectors = 4355

module _ {D : Type 0} (dev : Device D) where
  -- The 512 bytes of sector `lba` are those of `b`.
  abbrev pub Holds : Fs D → ℕ → Mem → Type 0
  Holds fs lba b = (buf : Mem) (k : ℕ) → k < 512 → dev_read dev fs lba buf k ≡ b k

  -- Sector `lba` reads the same in both states.
  abbrev pub SameSector : Fs D → Fs D → ℕ → Type 0
  SameSector fs fs' lba =
      (buf : Mem) (k : ℕ) → k < 512 → dev_read dev fs' lba buf k ≡ dev_read dev fs lba buf k

module _ {D : Type 0} (dev : Device D) (r : IsReliable dev needed_sectors) where
  pub dev_read-dev_write_self :
      (fs : Fs D) (lba : ℕ) (b : Mem)
      → lba < needed_sectors
      → Holds dev (dev_write dev fs lba b) lba b
  unfolding dev_read dev_write
  dev_read-dev_write_self fs lba b h buf k hk = r.read-write_self fs.disk lba b buf k h hk

  pub dev_read-dev_write_ne :
      (fs : Fs D) (lba other : ℕ) (b : Mem)
      → lba < needed_sectors
      → other < needed_sectors
      → lba ≢ other
      → SameSector dev fs (dev_write dev fs lba b) other
  unfolding dev_read dev_write
  dev_read-dev_write_ne fs lba other b h h' ne buf k hk =
      r.read-write_ne fs.disk lba other b buf k h h' ne hk
