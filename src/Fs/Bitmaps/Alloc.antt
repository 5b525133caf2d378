-- ===== src/Fs/Bitmaps/Alloc.antt =====
-- Allocation takes the first clear bit, changes no other, and leaves both bitmaps saved.
use calculatoros.Prelude.{
  ℕ, zero, suc, ◌+◌, ◌<◌, ◌≡◌, refl, sym, ◌∙◌, inl, inr, true, false, Option, none, some, arith,
  Bool-cases, ℕ_discrete,
}
use calculatoros.Memory.{from}
use calculatoros.Bitmap
use calculatoros.Bitmap.Laws.{AreBytes, set-AreBytes, test-set, test-clear}
use calculatoros.Fs.Layout.{
  total_blocks, max_inodes, block_bitmap_start, block_bitmap_at, inode_bitmap_at,
}
use calculatoros.Fs.Device.{Device, IsReliable}
use calculatoros.Fs.State.{Fs, dev_read}
use calculatoros.Fs.Sectors.{needed_sectors, Holds}
use calculatoros.Fs.Bitmaps.{
  save_bitmap, save_inode_bitmap, alloc_inode_from, alloc_block_from, alloc_inode, alloc_block,
  free_block,
}
use calculatoros.Fs.Bitmaps.Saved.{
  AreSaved, Allocated, mem-save_bitmap, mem-save_inode_bitmap, free_block_inside,
  block_bitmap_apart, save_bitmap-AreSaved, save_bitmap-SameElsewhere, save_inode_bitmap-AreSaved,
  save_inode_bitmap-SameElsewhere,
}

module _ {D : Type 0} (dev : Device D) (r : IsReliable dev needed_sectors) where
  -- A bit that is set in front of those looked at changes nothing.
  passed :
      (base i limit : ℕ) (fs : Fs D) (out : Option ℕ × Fs D)
      → Bitmap.test base fs.mem i ≡ true
      → Allocated dev base (i + 1) limit fs out
      → Allocated dev base i limit fs out
  passed base i limit fs (none, fs') t (same, full) =
      (same, λ j h h'. elim (ℕ_discrete j i) [ yes e ↦ cc | no ne ↦ full j (omega arith) h' ])
  passed base i limit fs (some n, fs') t (ge, lt, clear, before, mem, saved, same) = (
    omega arith,
    lt,
    clear,
    λ j h h'. elim (ℕ_discrete j i) [ yes e ↦ cc | no ne ↦ before j (omega arith) h' ],
    mem,
    saved,
    same,
  )

  took_block :
      (i limit : ℕ) (fs : Fs D)
      → i < limit
      → Bitmap.test block_bitmap_at fs.mem i ≡ false
      → Allocated dev block_bitmap_at i limit fs
          (some i, save_bitmap dev (record fs { mem = Bitmap.set block_bitmap_at fs.mem i }))
  unfolding dev_read
  took_block i limit fs h t =
      let marked : Fs D = record fs { mem = Bitmap.set block_bitmap_at fs.mem i } in
      (
        omega arith,
        h,
        t,
        λ j a b. absurd (omega arith),
        mem-save_bitmap dev marked,
        save_bitmap-AreSaved dev r marked,
        save_bitmap-SameElsewhere dev r marked,
      )

  took_inode :
      (i limit : ℕ) (fs : Fs D)
      → Holds dev fs block_bitmap_start (from fs.mem block_bitmap_at)
      → i < limit
      → Bitmap.test inode_bitmap_at fs.mem i ≡ false
      → Allocated dev inode_bitmap_at i limit fs
          (some i, save_inode_bitmap dev (record fs { mem = Bitmap.set inode_bitmap_at fs.mem i }))
  unfolding dev_read
  took_inode i limit fs saved h t =
      let marked : Fs D = record fs { mem = Bitmap.set inode_bitmap_at fs.mem i } in
      (
        omega arith,
        h,
        t,
        λ j a b. absurd (omega arith),
        mem-save_inode_bitmap dev marked,
        save_inode_bitmap-AreSaved dev r marked
            (λ buf k hk. saved buf k hk ∙ sym (block_bitmap_apart fs.mem i k hk)),
        save_inode_bitmap-SameElsewhere dev r marked,
      )

  alloc_block_from-Allocated :
      (left i limit : ℕ) (fs : Fs D)
      → i + left ≡ limit
      → Allocated dev block_bitmap_at i limit fs (alloc_block_from dev left i fs)
  unfolding alloc_block_from
  alloc_block_from-Allocated zero i limit fs e = (refl, λ j h h'. absurd (omega arith))
  alloc_block_from-Allocated (suc left) i limit fs e =
      elim (Bool-cases (Bitmap.test block_bitmap_at fs.mem i)) [
        | inl t ↦
            rw (t, alloc_block_from)
              (passed block_bitmap_at i limit fs _ t
                (alloc_block_from-Allocated left (i + 1) limit fs (omega arith)))
        | inr t ↦ rw (t, alloc_block_from) (took_block i limit fs (omega arith) t)
      ]

  alloc_inode_from-Allocated :
      (left i limit : ℕ) (fs : Fs D)
      → Holds dev fs block_bitmap_start (from fs.mem block_bitmap_at)
      → i + left ≡ limit
      → Allocated dev inode_bitmap_at i limit fs (alloc_inode_from dev left i fs)
  unfolding alloc_inode_from
  alloc_inode_from-Allocated zero i limit fs saved e = (refl, λ j h h'. absurd (omega arith))
  alloc_inode_from-Allocated (suc left) i limit fs saved e =
      elim (Bool-cases (Bitmap.test inode_bitmap_at fs.mem i)) [
        | inl t ↦
            rw (t, alloc_inode_from)
              (passed inode_bitmap_at i limit fs _ t
                (alloc_inode_from-Allocated left (i + 1) limit fs saved (omega arith)))
        | inr t ↦ rw (t, alloc_inode_from) (took_inode i limit fs saved (omega arith) t)
      ]

  -- `alloc_block` takes the first clear bit of the 4096 and sets it, changes no other byte of
  -- memory, leaves both bitmaps on disk as in memory and every other sector as it was; where all
  -- bits are set it returns -1 and changes nothing.
  pub alloc_block-Allocated :
      (fs : Fs D) → Allocated dev block_bitmap_at 0 total_blocks fs (alloc_block dev fs)
  unfolding alloc_block
  alloc_block-Allocated fs = alloc_block_from-Allocated total_blocks 0 total_blocks fs (omega arith)

  -- On a reliable device whose bitmap of blocks is as in memory: `alloc_inode` takes the first clear
  -- bit from 1 to 255 and sets it, changes no other byte of memory, leaves both bitmaps on disk as in
  -- memory and every other sector as it was; where all these bits are set it returns -1 and changes
  -- nothing.
  pub alloc_inode-Allocated :
      (fs : Fs D)
      → Holds dev fs block_bitmap_start (from fs.mem block_bitmap_at)
      → Allocated dev inode_bitmap_at 1 max_inodes fs (alloc_inode dev fs)
  unfolding alloc_inode
  alloc_inode-Allocated fs saved =
      alloc_inode_from-Allocated 255 1 max_inodes fs saved (omega arith)

  freed :
      (fs : Fs D) (out : Option ℕ × Fs D) (i j : ℕ)
      → AreBytes fs.mem
      → Allocated dev block_bitmap_at 0 total_blocks fs out
      → out.0 ≡ some i
      → (Bitmap.test block_bitmap_at (free_block dev i out.1).mem j
          ≡ Bitmap.test block_bitmap_at fs.mem j)
        × AreSaved dev (free_block dev i out.1)
  freed fs (none, fs') i j b a e = cc
  freed fs (some n, fs') i j b (ge, lt, clear, before, mem, saved, same) e =
      let base = block_bitmap_at in
      let same_n : n ≡ i = ground (arith, e) in
      let cleared : Fs D = record fs' { mem = Bitmap.clear base fs'.mem n } in
      (
        rw (← same_n, free_block_inside dev n fs' lt, mem-save_bitmap dev cleared, mem)
            (ground (
              arith,
              test-clear base (Bitmap.set base fs.mem n) n j (set-AreBytes base fs.mem n b _),
              test-set base fs.mem n j (b _),
            )),
        rw (← same_n, free_block_inside dev n fs' lt) (save_bitmap-AreSaved dev r cleared),
      )

  -- Freeing the block that `alloc_block` has just returned leaves every block bit as it was, and
  -- both bitmaps saved.
  pub free_block-alloc_block :
      (fs : Fs D) (i j : ℕ)
      → AreBytes fs.mem
      → (alloc_block dev fs).0 ≡ some i
      → let fs' = free_block dev i (alloc_block dev fs).1 in
        (Bitmap.test block_bitmap_at fs'.mem j ≡ Bitmap.test block_bitmap_at fs.mem j)
        × AreSaved dev fs'
  free_block-alloc_block fs i j b e =
      freed fs (alloc_block dev fs) i j b (alloc_block-Allocated fs) e
