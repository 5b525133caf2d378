-- ===== src/Fs/Format.antt =====
-- Formatting in fs.c: `fs_format` and `ram_disk_init`. The `inode_t` that both fill on their stack is
-- the memory of an inode 0; what they do not assign, a symbolic link's target among it, stays as it
-- was there.
pub mod Written
pub mod Mounted
pub mod Ram
mod Tests
use calculatoros.Prelude.{ℕ, zero, suc, ◌+◌, ◌*◌, ◌&&◌, Bool, true, ◌==◌, ltb, leb, if◌then◌else◌}
use calculatoros.Memory.{Mem, store, memcpy, from}
use calculatoros.Memory.Words.{store32}
use calculatoros.Fs.Layout.{
  max_inodes, superblock_sector, inode_start, block_bitmap_start, inode_bitmap_start,
  max_blocks_per_file, minus_one, type_dir, sizeof_inode, inode_at, type_of, size_of, parent_of,
  first_child_block_of, indirect_of,
}
use calculatoros.Fs.Device.{Device}
use calculatoros.Fs.Device.Ram.{ram_size}
use calculatoros.Fs.Lookup.{no_blocks}

abbrev zero_sector : Mem
zero_sector a = 0

-- `zero` with the three letters.
unfoldable pub magic : Mem
magic a = if a == 0 then b'M' else if a == 1 then b'F' else if a == 2 then b'S' else 0

-- The assignments to `root`, in the memory before them.
unfoldable pub root_inode : Mem → Mem
root_inode m =
    let named =
      store (λ a. if leb (inode_at 0) a && ltb a (inode_at 0 + 32) then 0 else m a) (inode_at 0)
        b'/' in
    let sized =
      store32 (store32 (store32 named (type_of 0) type_dir) (parent_of 0) 0) (size_of 0) 0 in
    let empty =
      store32 (store32 sized (indirect_of 0) minus_one) (first_child_block_of 0) minus_one in
    no_blocks 0 max_blocks_per_file 0 empty

-- `buf` after the copy of `root`.
unfoldable pub root_sector : Mem → Mem
unfolding root_inode
root_sector stack = memcpy zero_sector 0 (from (root_inode stack) (inode_at 0)) sizeof_inode

module _ {D : Type 0} (dev : Device D) where
  -- The `left` sectors from `start` on.
  unfoldable pub zero_sectors : ℕ → ℕ → D → D
  zero_sectors zero start d = d
  zero_sectors (suc left) start d = zero_sectors left (start + 1) (dev.write d start zero_sector)

  -- One sector for each of the bitmaps, and one for each inode.
  unfoldable pub cleared : D → D
  unfolding zero_sectors
  cleared d =
      let empty = dev.write d superblock_sector zero_sector in
      let free = zero_sectors 1 block_bitmap_start (zero_sectors 1 inode_bitmap_start empty) in
      zero_sectors max_inodes inode_start free

  unfoldable pub fs_format : Mem → D → D
  unfolding cleared root_sector magic
  fs_format stack d =
      dev.write (dev.write (cleared d) inode_start (root_sector stack)) superblock_sector magic

-- `ram_disk` once it is initialised.
unfoldable pub filled_disk : Mem → Mem → Mem
unfolding root_inode magic
filled_disk stack ram =
    let zeros : Mem = λ a. if ltb a ram_size then 0 else ram a in
    let marked = memcpy zeros (superblock_sector * 512) magic 3 in
    memcpy marked (inode_start * 512) (from (root_inode stack) (inode_at 0)) sizeof_inode

-- The state is `ram_disk_initialized` and `ram_disk`.
unfoldable pub ram_disk_init : Mem → Bool × Mem → Bool × Mem
ram_disk_init stack (initialized, ram) =
    if initialized then (initialized, ram) else (true, filled_disk stack ram)
