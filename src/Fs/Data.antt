-- ===== src/Fs/Data.antt =====
-- The contents of files in fs.c: `read_file_data` and `write_file_data`.
pub mod Contents
pub mod Read
pub mod Write
mod Tests
use calculatoros.Prelude.{
  ℕ, zero, suc, ◌+◌, ◌-◌, ◌*◌, ◌/◌, ◌%◌, ◌^◌, Bool, true, false, Option, none, some, ◌==◌, ltb, leb,
  min, if◌then◌else◌,
}
use calculatoros.Memory.{Mem, memcpy, from}
use calculatoros.Memory.Words.{load32, store32}
use calculatoros.Fs.Layout.{
  block_size, data_start, minus_one, max_blocks_per_file, block_of, indirect_of, size_of, dirty_at,
}
use calculatoros.Fs.Device.{Device}
use calculatoros.Fs.State.{Fs, sector, dev_read, dev_write}
use calculatoros.Fs.Bitmaps.{alloc_block}
use calculatoros.Fs.Inode.{load_inode, save_inode}
use calculatoros.Fs.Dir.{slot, set_slot}

-- `direct_count + indirect_count`
abbrev pub blocks_of_file : ℕ
blocks_of_file = 140

-- -1 is no block.
abbrev pub as_block : ℕ → Option ℕ
as_block b = if b == minus_one then none else some b

-- The bytes that are read of `size` at `offset`, in a file of `end` bytes.
unfoldable pub clipped : ℕ → ℕ → ℕ → ℕ
clipped offset size end = if ltb end ((offset + size) % 2 ^ 32) then end - offset else size

module _ {D : Type 0} (dev : Device D) where
  -- The block number in the entry `k` of the indirect block `b`.
  unfoldable pub indirect_entry : Fs D → ℕ → Option ℕ → Option ℕ
  indirect_entry fs k none = none
  indirect_entry fs k (some b) = as_block (slot (dev_read dev fs (sector data_start b) fs.stack) k)

  -- The block of the file at the index `i`, where `read_file_data` looks for it.
  unfoldable pub block_number : Fs D → ℕ → ℕ → Option ℕ
  block_number fs inode_num i =
      if ltb i max_blocks_per_file
      then as_block (load32 fs.mem (block_of inode_num i))
      else indirect_entry fs (i - max_blocks_per_file)
          (as_block (load32 fs.mem (indirect_of inode_num)))

  -- One round of the loop of `read_file_data`, with the block's number: `start` is `copy_start`,
  -- `done` counts the bytes read, and `rest` goes on with the next block.
  unfoldable pub read_block : Fs D → ℕ → ℕ → ℕ → Mem → (ℕ → Mem → ℕ × Mem) → Option ℕ → ℕ × Mem
  read_block fs start done size buffer rest none = (done, buffer)
  read_block fs start done size buffer rest (some b) =
      let block_data = dev_read dev fs (sector data_start b) fs.stack in
      let copy_size = min (block_size - start) (size - done) in
      rest (done + copy_size) (memcpy buffer done (from block_data start) copy_size)

  -- The loop for the `left` blocks from `i` on. It leaves the file system as it is.
  unfoldable pub read_loop : Fs D → ℕ → ℕ → ℕ → ℕ → ℕ → ℕ → Mem → ℕ × Mem
  read_loop fs inode_num zero i start done size buffer = (done, buffer)
  read_loop fs inode_num (suc left) i start done size buffer =
      let rest = read_loop fs inode_num left (i + 1) 0 in
      if leb size done
      then (done, buffer)
      else read_block fs start done size buffer (λ done' buffer'. rest done' size buffer')
          (block_number fs inode_num i)

  -- The number of bytes read and the buffer, and the file system with the inode loaded.
  unfoldable pub read_file_data : ℕ → Mem → ℕ → ℕ → Fs D → (ℕ × Mem) × Fs D
  read_file_data inode_num buffer offset size fs =
      let fs' = load_inode dev inode_num fs in
      let end = load32 fs'.mem (size_of inode_num) in
      if leb end offset
      then ((0, buffer), fs')
      else let first = offset / block_size in
        (
          read_loop fs' inode_num (blocks_of_file - first) first (offset % block_size) 0
              (clipped offset size end) buffer,
          fs',
        )
