-- ===== src/Fs/Data/Write.antt =====
-- Writing files in fs.c: `write_file_data`, with the blocks that it allocates. A result `none` of
-- the search for a block is the early return, after which the inode is not saved.
pub mod InPlace
use calculatoros.Prelude.{
  ℕ, zero, suc, ◌+◌, ◌-◌, ◌/◌, ◌%◌, ◌^◌, Bool, true, false, Option, none, some, ◌==◌, ltb, leb, min,
  if◌then◌else◌,
}
use calculatoros.Memory.{Mem, memcpy, from}
use calculatoros.Memory.Words.{load32, store32}
use calculatoros.Fs.Layout.{
  block_size, data_start, minus_one, max_blocks_per_file, block_of, indirect_of, size_of, dirty_at,
}
use calculatoros.Fs.Device.{Device}
use calculatoros.Fs.State.{Fs, sector, dev_read, dev_write}
use calculatoros.Fs.Bitmaps.{alloc_block}
use calculatoros.Fs.Inode.{load_inode, save_inode}
use calculatoros.Fs.Dir.{slot, set_slot}
use calculatoros.Fs.Data.{blocks_of_file}

-- The word at `a` becomes the number of a new block, and the inode dirty.
unfoldable pub set_block : {D : Type 0} → ℕ → ℕ → ℕ → Fs D → Fs D
set_block inode_num a nb fs = record fs {
  mem = store32 (store32 fs.mem a nb) (dirty_at inode_num) 1;
}

module _ {D : Type 0} (dev : Device D) where
  -- A direct block, once `alloc_block` has returned.
  unfoldable pub new_direct : ℕ → ℕ → Option ℕ × Fs D → Option ℕ × Fs D
  new_direct inode_num i (none, fs) = (none, fs)
  new_direct inode_num i (some nb, fs) = (some nb, set_block inode_num (block_of inode_num i) nb fs)

  unfoldable pub direct_block : ℕ → ℕ → Fs D → Option ℕ × Fs D
  direct_block inode_num i fs =
      let b = load32 fs.mem (block_of inode_num i) in
      if b == minus_one then new_direct inode_num i (alloc_block dev fs) else (some b, fs)

  -- The indirect block; a new one is filled with -1.
  unfoldable pub new_indirect : ℕ → Option ℕ × Fs D → Option ℕ × Fs D
  new_indirect inode_num (none, fs) = (none, fs)
  new_indirect inode_num (some nb, fs) = (
    some nb,
    dev_write dev (set_block inode_num (indirect_of inode_num) nb fs) (sector data_start nb)
        (λ a. 255),
  )

  unfoldable pub indirect_block : ℕ → Fs D → Option ℕ × Fs D
  indirect_block inode_num fs =
      let b = load32 fs.mem (indirect_of inode_num) in
      if b == minus_one then new_indirect inode_num (alloc_block dev fs) else (some b, fs)

  -- The entry `k` of the indirect block `b`, which holds `slots`.
  unfoldable pub new_entry : ℕ → ℕ → ℕ → Mem → Option ℕ × Fs D → Option ℕ × Fs D
  new_entry inode_num b k slots (none, fs) = (none, fs)
  new_entry inode_num b k slots (some nb, fs) =
      let written = dev_write dev fs (sector data_start b) (set_slot slots k nb) in
      (some nb, record written { mem = store32 fs.mem (dirty_at inode_num) 1 })

  unfoldable pub entry_block : ℕ → ℕ → Option ℕ × Fs D → Option ℕ × Fs D
  entry_block inode_num k (none, fs) = (none, fs)
  entry_block inode_num k (some b, fs) =
      let slots = dev_read dev fs (sector data_start b) fs.stack in
      if slot slots k == minus_one
      then new_entry inode_num b k slots (alloc_block dev fs)
      else (some (slot slots k), fs)

  -- The block of the file at the index `i`, allocated where there is none.
  unfoldable pub target_block : ℕ → ℕ → Fs D → Option ℕ × Fs D
  target_block inode_num i fs =
      if ltb i max_blocks_per_file
      then direct_block inode_num i fs
      else entry_block inode_num (i - max_blocks_per_file) (indirect_block inode_num fs)

  -- One round of the loop with the block's number; the first component of the result is whether the
  -- loop has come to its end.
  unfoldable pub write_block :
      ℕ → ℕ → ℕ → Mem → (ℕ → Fs D → Bool × (ℕ × Fs D)) → Option ℕ × Fs D → Bool × (ℕ × Fs D)
  write_block start written size buffer rest (none, fs) = (false, (written, fs))
  write_block start written size buffer rest (some b, fs) =
      let block = dev_read dev fs (sector data_start b) (λ a. 0) in
      let csize = min (block_size - start) (size - written) in
      rest (written + csize)
        (dev_write dev fs (sector data_start b) (memcpy block start (from buffer written) csize))

  unfoldable pub write_loop : ℕ → ℕ → ℕ → ℕ → ℕ → ℕ → Mem → Fs D → Bool × (ℕ × Fs D)
  write_loop inode_num zero i start written size buffer fs = (true, (written, fs))
  write_loop inode_num (suc left) i start written size buffer fs =
      let rest = write_loop inode_num left (i + 1) 0 in
      if leb size written
      then (true, (written, fs))
      else write_block start written size buffer (λ written' fs'. rest written' size buffer fs')
          (target_block inode_num i fs)

  unfoldable pub finish_write : ℕ → Bool × (ℕ × Fs D) → ℕ × Fs D
  finish_write inode_num (false, (written, fs)) = (written, fs)
  finish_write inode_num (true, (written, fs)) = (written, save_inode dev inode_num fs)

  -- The size of the file, where the bytes go past its end.
  unfoldable pub grow : ℕ → ℕ → Fs D → Fs D
  grow inode_num last fs =
      if ltb (load32 fs.mem (size_of inode_num)) last
      then record fs {
        mem = store32 (store32 fs.mem (size_of inode_num) last) (dirty_at inode_num) 1;
      }
      else fs

  unfoldable pub write_file_data : ℕ → Mem → ℕ → ℕ → Fs D → ℕ × Fs D
  write_file_data inode_num buffer offset size fs =
      let grown = grow inode_num ((offset + size) % 2 ^ 32) (load_inode dev inode_num fs) in
      let first = offset / block_size in
      finish_write inode_num (
        write_loop inode_num (blocks_of_file - first) first (offset % block_size) 0 size buffer
          grown)
