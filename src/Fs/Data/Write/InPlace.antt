-- ===== src/Fs/Data/Write/InPlace.antt =====
-- Writing inside one block of a file that has it.
use calculatoros.Prelude.{
  ℕ, zero, suc, ◌+◌, ◌-◌, ◌/◌, ◌%◌, ◌^◌, ◌≤◌, ◌<◌, ◌≡◌, ◌≢◌, refl, ap, ◌∙◌, true, false, some, ◌==◌,
  ltb, leb, min, arith, ◌⊎◌,
}
use calculatoros.Memory.{Mem, memcpy, from}
use calculatoros.Memory.Copy.{memcpy_inside, memcpy_outside}
use calculatoros.Memory.Words.{load32}
use calculatoros.Fs.Layout.{
  data_start, minus_one, total_blocks, max_blocks_per_file, block_of, size_of,
}
use calculatoros.Fs.Device.{Device, IsReliable}
use calculatoros.Fs.State.{Fs, sector, dev_read, dev_write}
use calculatoros.Fs.Sectors.{
  needed_sectors, Holds, SameSector, dev_read-dev_write_self, dev_read-dev_write_ne,
}
use calculatoros.Fs.Inode.{save_inode, is_loaded, is_dirty}
use calculatoros.Fs.Inode.Cache.{load_inode_loaded}
use calculatoros.Fs.Data.Write.{
  target_block, direct_block, write_block, write_loop, finish_write, grow, write_file_data,
}

-- The file has the direct block `b` for all of the bytes, which do not go past its end, and its
-- inode is loaded and clean.
pub record IsInPlace {D : Type 0} (fs : Fs D) (inode_num b offset size : ℕ) : Type 0 where
  pub loaded : is_loaded fs.mem inode_num ≡ true
  pub clean : is_dirty fs.mem inode_num ≡ false
  pub some_bytes : 0 < size
  pub one_block : offset % 512 + size ≤ 512
  pub direct : offset / 512 < max_blocks_per_file
  pub block : load32 fs.mem (block_of inode_num (offset / 512)) ≡ b
  pub in_range : b < total_blocks
  pub inside : offset + size ≤ load32 fs.mem (size_of inode_num)

module _ {D : Type 0} (dev : Device D) where
  loop_end :
      (inode_num left i start size : ℕ) (buffer : Mem) (fs : Fs D)
      → write_loop dev inode_num left i start size size buffer fs ≡ (true, (size, fs))
  unfolding write_loop
  loop_end inode_num zero i start size buffer fs = refl
  loop_end inode_num (suc left) i start size buffer fs =
      let e : leb size size ≡ true = ground arith in rw e refl

  target_block-direct :
      (inode_num i b : ℕ) (fs : Fs D)
      → i < max_blocks_per_file
      → load32 fs.mem (block_of inode_num i) ≡ b
      → b < total_blocks
      → target_block dev inode_num i fs ≡ (some b, fs)
  unfolding target_block direct_block
  target_block-direct inode_num i b fs h e r =
      let d : ltb i max_blocks_per_file ≡ true = ground arith in
      let n : (b == minus_one) ≡ false = ground arith in rw (d, e, n) refl

  save_inode-clean : (i : ℕ) (fs : Fs D) → is_dirty fs.mem i ≡ false → save_inode dev i fs ≡ fs
  unfolding save_inode
  save_inode-clean i fs h = ground arith

  -- The state after the one round of the loop.
  overwritten : Fs D → ℕ → ℕ → ℕ → Mem → Fs D
  overwritten fs b start size buffer =
      dev_write dev fs (sector data_start b)
        (memcpy (dev_read dev fs (sector data_start b) (λ a. 0)) start (from buffer 0) size)

  overwritten_mem :
      (fs : Fs D) (b start size : ℕ) (buffer : Mem)
      → (overwritten fs b start size buffer).mem ≡ fs.mem
  unfolding overwritten dev_write
  overwritten_mem fs b start size buffer = refl

  overwritten-clean :
      (fs : Fs D) (b start size i : ℕ) (buffer : Mem)
      → is_dirty fs.mem i ≡ false
      → is_dirty (overwritten fs b start size buffer).mem i ≡ false
  unfolding overwritten dev_write
  overwritten-clean fs b start size i buffer h = h

  one_round :
      (inode_num left i b start size : ℕ) (buffer : Mem) (fs : Fs D)
      → 0 < size
      → start + size ≤ 512
      → i < max_blocks_per_file
      → load32 fs.mem (block_of inode_num i) ≡ b
      → b < total_blocks
      → write_loop dev inode_num (suc left) i start 0 size buffer fs
        ≡ (true, (size, overwritten fs b start size buffer))
  unfolding write_loop write_block overwritten
  one_round inode_num left i b start size buffer fs pos fit h e r =
      let n : leb size 0 ≡ false = ground arith in
      let c : min (512 - start) (size - 0) ≡ size = omega arith in
      let z : 0 + size ≡ size = omega arith in
      rw (n, target_block-direct inode_num i b fs h e r, c, z)
        (loop_end inode_num left (i + 1) 0 size buffer (overwritten fs b start size buffer))

  write_in_place :
      (fs : Fs D) (inode_num b offset size : ℕ) (buffer : Mem)
      → IsInPlace fs inode_num b offset size
      → write_file_data dev inode_num buffer offset size fs
        ≡ (size, overwritten fs b (offset % 512) size buffer)
  unfolding write_file_data grow finish_write
  write_in_place fs inode_num b offset size buffer h =
      let inside = h.inside in
      let direct = h.direct in
      let fit = h.one_block in
      let m : (offset + size) % 2 ^ 32 ≡ offset + size = omega arith in
      let g : ltb (load32 fs.mem (size_of inode_num)) (offset + size) ≡ false = ground arith in
      let l : 140 - offset / 512 ≡ suc (139 - offset / 512) = omega arith in
      rw
        (
          load_inode_loaded dev inode_num fs h.loaded,
          m,
          g,
          l,
          one_round inode_num (139 - offset / 512) (offset / 512) b (offset % 512) size buffer fs
              h.some_bytes h.one_block h.direct h.block h.in_range,
        )
        (ap (λ f. (size, f))
          (save_inode-clean inode_num (overwritten fs b (offset % 512) size buffer)
            (overwritten-clean fs b (offset % 512) size inode_num buffer h.clean)))

reads_same :
    {D : Type 0} (dev : Device D) (r : IsReliable dev needed_sectors) (fs : Fs D) (lba : ℕ)
    (buf buf' : Mem) (k : ℕ)
    → lba < needed_sectors
    → k < 512
    → dev_read dev fs lba buf k ≡ dev_read dev fs lba buf' k
unfolding dev_read
reads_same dev r fs lba buf buf' k h hk = r.read_fills fs.disk lba buf buf' k h hk

-- On a reliable device, writing at least one byte inside one direct block of a file that has it,
-- without going past the end of the file, where the inode is loaded and clean: `write_file_data`
-- returns `size` and memory is as before. In the sector of the block the bytes of the buffer stand
-- from the offset on, every other byte of that sector is as it was, and so is every other sector of
-- the file system.
pub write_file_data-in_place :
    {D : Type 0} (dev : Device D) (r : IsReliable dev needed_sectors) (fs : Fs D)
    (inode_num b offset size : ℕ) (buffer : Mem)
    → IsInPlace fs inode_num b offset size
    → let (count, fs') = write_file_data dev inode_num buffer offset size fs in
      (count ≡ size)
      × (fs'.mem ≡ fs.mem)
      × ((buf : Mem) (j : ℕ)
          → j < size
          → dev_read dev fs' (sector data_start b) buf (offset % 512 + j) ≡ buffer j)
      × ((buf : Mem) (k : ℕ)
          → k < 512
          → (k < offset % 512) ⊎ (offset % 512 + size ≤ k)
          → dev_read dev fs' (sector data_start b) buf k
            ≡ dev_read dev fs (sector data_start b) buf k)
      × ((lba : ℕ) → lba < needed_sectors → sector data_start b ≢ lba → SameSector dev fs fs' lba)
unfolding overwritten
write_file_data-in_place dev r fs inode_num b offset size buffer h =
    let start = offset % 512 in
    let old = dev_read dev fs (sector data_start b) (λ a. 0) in
    let new = memcpy old start (from buffer 0) size in
    let range = h.in_range in
    let fit = h.one_block in
    let s : sector data_start b < needed_sectors = omega arith in
    let held : Holds dev (overwritten dev fs b start size buffer) (sector data_start b) new =
      dev_read-dev_write_self dev r fs (sector data_start b) new s in
    rw (write_in_place dev fs inode_num b offset size buffer h) (
      refl,
      overwritten_mem dev fs b start size buffer,
      λ buf j lt.
          held buf (start + j) (omega arith)
          ∙ memcpy_inside old start (from buffer 0) size j lt
          ∙ ap buffer (omega arith),
      λ buf k lt out.
          held buf k lt
          ∙ memcpy_outside old start (from buffer 0) size k out
          ∙ reads_same dev r fs (sector data_start b) (λ a. 0) buf k s lt,
      λ lba h' ne. dev_read-dev_write_ne dev r fs (sector data_start b) lba new s h' ne,
    )
