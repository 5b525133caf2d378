-- ===== src/Fs/Bitmaps.antt =====
-- The bitmaps of blocks and of inodes: `alloc_block`, `free_block`, `alloc_inode`, `free_inode`,
-- and the functions that load and save them.
pub mod Saved
pub mod Alloc
mod Tests
use calculatoros.Prelude.{
  ℕ, zero, suc, ◌+◌, ◌*◌, Bool, true, false, Option, none, some, ltb, leb, if◌then◌else◌,
}
use calculatoros.Memory.{Mem, memcpy, from}
use calculatoros.Bitmap
use calculatoros.Fs.Layout.{
  block_size, total_blocks, max_inodes, block_bitmap_start, inode_bitmap_start, block_bitmap_at,
  inode_bitmap_at,
}
use calculatoros.Fs.Device.{Device}
use calculatoros.Fs.State.{Fs, dev_read, dev_write}

module _ {D : Type 0} (dev : Device D) where
  -- One round of the loops that fill a bitmap from the disk or write it: the sector `start + i`
  -- and the bytes from `base + i * BLOCK_SIZE` on.
  load_sector : ℕ → ℕ → ℕ → Fs D → Fs D
  load_sector start base i fs =
      let at = base + i * block_size in
      record fs { mem = memcpy fs.mem at (dev_read dev fs (start + i) (from fs.mem at)) block_size }

  save_sector : ℕ → ℕ → ℕ → Fs D → Fs D
  save_sector start base i fs = dev_write dev fs (start + i) (from fs.mem (base + i * block_size))

  -- `sectors` is (256 / 8 + 511) / 512, that is 1.
  unfoldable pub load_inode_bitmap : Fs D → Fs D
  unfolding load_sector
  load_inode_bitmap = load_sector inode_bitmap_start inode_bitmap_at 0

  unfoldable pub save_inode_bitmap : Fs D → Fs D
  unfolding save_sector
  save_inode_bitmap = save_sector inode_bitmap_start inode_bitmap_at 0

  -- `sectors` is (4096 + 7) / 8 / 512 + 1, that is 2, though the bitmap has one sector: the second
  -- round goes on with `inode_bitmap`, which follows it in memory and on disk.
  unfoldable pub load_bitmap : Fs D → Fs D
  unfolding load_sector
  load_bitmap fs =
      load_sector block_bitmap_start block_bitmap_at 1
        (load_sector block_bitmap_start block_bitmap_at 0 fs)

  unfoldable pub save_bitmap : Fs D → Fs D
  unfolding save_sector
  save_bitmap fs =
      save_sector block_bitmap_start block_bitmap_at 1
        (save_sector block_bitmap_start block_bitmap_at 0 fs)

  -- The loops of `alloc_inode` and `alloc_block` with `left` bits to look at; `none` is -1.
  unfoldable pub alloc_inode_from : ℕ → ℕ → Fs D → Option ℕ × Fs D
  alloc_inode_from zero i fs = (none, fs)
  alloc_inode_from (suc left) i fs = elim (Bitmap.test inode_bitmap_at fs.mem i) [
    | true ↦ alloc_inode_from left (i + 1) fs
    | false ↦ (some i, save_inode_bitmap (record fs { mem = Bitmap.set inode_bitmap_at fs.mem i }))
  ]

  unfoldable pub alloc_block_from : ℕ → ℕ → Fs D → Option ℕ × Fs D
  alloc_block_from zero i fs = (none, fs)
  alloc_block_from (suc left) i fs = elim (Bitmap.test block_bitmap_at fs.mem i) [
    | true ↦ alloc_block_from left (i + 1) fs
    | false ↦ (some i, save_bitmap (record fs { mem = Bitmap.set block_bitmap_at fs.mem i }))
  ]

  unfoldable pub alloc_inode : Fs D → Option ℕ × Fs D
  alloc_inode fs = alloc_inode_from 255 1 fs

  unfoldable pub alloc_block : Fs D → Option ℕ × Fs D
  alloc_block fs = alloc_block_from total_blocks 0 fs

  unfoldable pub free_inode : ℕ → Fs D → Fs D
  free_inode i fs = save_inode_bitmap (record fs { mem = Bitmap.clear inode_bitmap_at fs.mem i })

  -- A block number of 2 ^ 31 or more is a negative `int`: it is out of range as well.
  unfoldable pub free_block : ℕ → Fs D → Fs D
  free_block block fs =
      if leb total_blocks block
      then fs
      else save_bitmap (record fs { mem = Bitmap.clear block_bitmap_at fs.mem block })
