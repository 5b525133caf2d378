-- ===== src/Fs/Inode.antt =====
-- The inode cache of fs.c: `load_inode` and `save_inode`, byte by byte. Both copy `INODE_SIZE`
-- bytes, 512, from and to a cache entry of `sizeof(inode_t)` bytes, 364.
pub mod Cache
mod Tests
use calculatoros.Prelude.{ℕ, ◌+◌, ◌*◌, ◌/◌, ◌%◌, Bool, not, ◌||◌, ◌==◌, if◌then◌else◌}
use calculatoros.Memory.{Mem, memcpy, from}
use calculatoros.Memory.Words.{load32, store32}
use calculatoros.Fs.Layout.{block_size, inode_size, inode_start, inode_at, loaded_at, dirty_at}
use calculatoros.Fs.Device.{Device}
use calculatoros.Fs.State.{Fs, valid_inode, dev_read, dev_write}

-- Where an inode stands on disk.
abbrev pub inode_sector : ℕ → ℕ
inode_sector i = inode_start + i * inode_size / block_size

abbrev pub inode_offset : ℕ → ℕ
inode_offset i = i * inode_size % block_size

abbrev pub is_loaded : Mem → ℕ → Bool
is_loaded m i = not (load32 m (loaded_at i) == 0)

abbrev pub is_dirty : Mem → ℕ → Bool
is_dirty m i = not (load32 m (dirty_at i) == 0)

module _ {D : Type 0} (dev : Device D) where
  unfoldable pub load_inode : ℕ → Fs D → Fs D
  load_inode i fs =
      if not (valid_inode i) || is_loaded fs.mem i
      then fs
      else let buf = dev_read dev fs (inode_sector i) fs.stack in
        let copied = memcpy fs.mem (inode_at i) (from buf (inode_offset i)) inode_size in
        record fs { mem = store32 (store32 copied (loaded_at i) 1) (dirty_at i) 0 }

  unfoldable pub save_inode : ℕ → Fs D → Fs D
  save_inode i fs =
      if not (valid_inode i) || not (is_dirty fs.mem i)
      then fs
      else let buf = dev_read dev fs (inode_sector i) fs.stack in
        let copied = memcpy buf (inode_offset i) (from fs.mem (inode_at i)) inode_size in
        let written = dev_write dev fs (inode_sector i) copied in
        record written { mem = store32 fs.mem (dirty_at i) 0 }
