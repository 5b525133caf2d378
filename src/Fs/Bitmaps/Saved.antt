-- ===== src/Fs/Bitmaps/Saved.antt =====
-- What saving the bitmaps of fs.c leaves on disk.
use calculatoros.Prelude.{
  ℕ, ◌+◌, ◌<◌, ◌≤◌, ◌≡◌, ◌≢◌, refl, ◌∙◌, true, false, Option, none, some, arith,
}
use calculatoros.Memory.{Mem, from}
use calculatoros.Bitmap
use calculatoros.Fs.Layout.{
  total_blocks, block_bitmap_start, inode_bitmap_start, block_bitmap_at, inode_bitmap_at,
}
use calculatoros.Fs.Device.{Device, IsReliable}
use calculatoros.Fs.State.{Fs, dev_write}
use calculatoros.Fs.Sectors.{
  needed_sectors, Holds, SameSector, dev_read-dev_write_self, dev_read-dev_write_ne,
}
use calculatoros.Fs.Bitmaps.{save_sector, save_bitmap, save_inode_bitmap, free_block}

module _ {D : Type 0} (dev : Device D) where
  -- Both bitmaps on disk are as in memory.
  pub record AreSaved (fs : Fs D) : Type 0 where
    pub blocks : Holds dev fs block_bitmap_start (from fs.mem block_bitmap_at)
    pub inodes : Holds dev fs inode_bitmap_start (from fs.mem inode_bitmap_at)

  -- Every sector but those of the bitmaps is as it was.
  abbrev pub SameElsewhere : Fs D → Fs D → Type 0
  SameElsewhere fs fs' =
      (lba : ℕ)
      → lba < needed_sectors
      → lba ≢ block_bitmap_start
      → lba ≢ inode_bitmap_start
      → SameSector dev fs fs' lba

  -- What an allocation from the `count` bits from `first` on does, with the bitmap at `base`.
  abbrev pub Allocated : ℕ → ℕ → ℕ → Fs D → Option ℕ × Fs D → Type 0
  Allocated base first limit fs (none, fs') =
      (fs' ≡ fs) × ((j : ℕ) → first ≤ j → j < limit → Bitmap.test base fs.mem j ≡ true)
  Allocated base first limit fs (some i, fs') =
      (first ≤ i)
      × (i < limit)
      × (Bitmap.test base fs.mem i ≡ false)
      × ((j : ℕ) → first ≤ j → j < i → Bitmap.test base fs.mem j ≡ true)
      × (fs'.mem ≡ Bitmap.set base fs.mem i)
      × AreSaved fs'
      × SameElsewhere fs fs'

  pub mem-save_bitmap : (fs : Fs D) → (save_bitmap dev fs).mem ≡ fs.mem
  unfolding save_bitmap dev_write
  mem-save_bitmap fs = refl

  pub mem-save_inode_bitmap : (fs : Fs D) → (save_inode_bitmap dev fs).mem ≡ fs.mem
  unfolding save_inode_bitmap dev_write
  mem-save_inode_bitmap fs = refl

  pub free_block_inside :
      (n : ℕ) (fs : Fs D)
      → n < total_blocks
      → free_block dev n fs
        ≡ save_bitmap dev (record fs { mem = Bitmap.clear block_bitmap_at fs.mem n })
  unfolding free_block
  free_block_inside n fs h = ground arith

-- A write to the inode bitmap leaves the block bitmap alone.
pub block_bitmap_apart :
    (m : Mem) (i k : ℕ)
    → k < 512
    → Bitmap.set inode_bitmap_at m i (block_bitmap_at + k) ≡ m (block_bitmap_at + k)
unfolding Bitmap.set
block_bitmap_apart m i k h = ground arith

module _ {D : Type 0} (dev : Device D) (r : IsReliable dev needed_sectors) where
  pub save_bitmap-AreSaved : (fs : Fs D) → AreSaved dev (save_bitmap dev fs)
  unfolding save_bitmap dev_write
  save_bitmap-AreSaved fs =
      let s = save_sector dev block_bitmap_start block_bitmap_at 0 fs in
      record {
        blocks = λ buf k h.
            dev_read-dev_write_ne dev r s 258 257 (from fs.mem 516) (omega arith) (omega arith)
              (omega arith) buf k h
            ∙ dev_read-dev_write_self dev r fs 257 (from fs.mem 4) (omega arith) buf k h;
        inodes = dev_read-dev_write_self dev r s 258 (from fs.mem 516) (omega arith);
      }

  pub save_bitmap-SameElsewhere : (fs : Fs D) → SameElsewhere dev fs (save_bitmap dev fs)
  unfolding save_bitmap dev_write
  save_bitmap-SameElsewhere fs lba h ne ne' buf k hk =
      let s = save_sector dev block_bitmap_start block_bitmap_at 0 fs in
      dev_read-dev_write_ne dev r s 258 lba (from fs.mem 516) (omega arith) h (omega arith) buf k hk
      ∙ dev_read-dev_write_ne dev r fs 257 lba (from fs.mem 4) (omega arith) h (omega arith) buf k
          hk

  -- Only the inode bitmap is written: the other must have been saved before.
  pub save_inode_bitmap-AreSaved :
      (fs : Fs D)
      → Holds dev fs block_bitmap_start (from fs.mem block_bitmap_at)
      → AreSaved dev (save_inode_bitmap dev fs)
  unfolding save_inode_bitmap dev_write
  save_inode_bitmap-AreSaved fs saved = record {
    blocks = λ buf k h.
        dev_read-dev_write_ne dev r fs 258 257 (from fs.mem 516) (omega arith) (omega arith)
          (omega arith) buf k h
        ∙ saved buf k h;
    inodes = dev_read-dev_write_self dev r fs 258 (from fs.mem 516) (omega arith);
  }

  pub save_inode_bitmap-SameElsewhere :
      (fs : Fs D) → SameElsewhere dev fs (save_inode_bitmap dev fs)
  unfolding save_inode_bitmap dev_write
  save_inode_bitmap-SameElsewhere fs lba h ne ne' buf k hk =
      dev_read-dev_write_ne dev r fs 258 lba (from fs.mem 516) (omega arith) h (omega arith) buf k
        hk
