-- ===== src/Fs/Layout.antt =====
-- fs.h and the struct `fs_instance_t` of fs.c: the sectors of the disk, and the offsets of the
-- fields in memory. Pointers, `int`s and enums have 32 bits; `inode_t` is packed.
use calculatoros.Prelude.{ℕ, ◌+◌, ◌*◌}

abbrev pub block_size : ℕ
block_size = 512

abbrev pub total_blocks : ℕ
total_blocks = 4096

abbrev pub max_inodes : ℕ
max_inodes = 256

-- `INODE_SIZE`, the bytes of a sector that an inode is said to take.
abbrev pub inode_size : ℕ
inode_size = 512

abbrev pub superblock_sector : ℕ
superblock_sector = 0

abbrev pub inode_start : ℕ
inode_start = 1

-- `INODE_START + (MAX_INODES * INODE_SIZE + BLOCK_SIZE - 1) / BLOCK_SIZE`
abbrev pub block_bitmap_start : ℕ
block_bitmap_start = 257

abbrev pub inode_bitmap_start : ℕ
inode_bitmap_start = 258

-- `BLOCK_BITMAP_START + (TOTAL_BLOCKS + 7) / 8 / BLOCK_SIZE + 1`
abbrev pub data_start : ℕ
data_start = 259

abbrev pub max_blocks_per_file : ℕ
max_blocks_per_file = 12

-- `(uint32_t)-1`
abbrev pub minus_one : ℕ
minus_one = 4294967295

-- `NodeType`
abbrev pub type_file : ℕ
type_file = 0

abbrev pub type_dir : ℕ
type_dir = 1

abbrev pub type_symlink : ℕ
type_symlink = 2

abbrev pub type_block_dev : ℕ
type_block_dev = 3

abbrev pub type_hardlink : ℕ
type_hardlink = 4

-- `sizeof(inode_t)`, less than `INODE_SIZE`.
abbrev pub sizeof_inode : ℕ
sizeof_inode = 364

-- Offsets in `fs_instance_t`.
abbrev pub block_bitmap_at : ℕ
block_bitmap_at = 4

abbrev pub inode_bitmap_at : ℕ
inode_bitmap_at = 516

-- `&fs->inode_cache[i]`
abbrev pub inode_at : ℕ → ℕ
inode_at i = 1028 + i * 364

-- `&fs->inode_cache_loaded[i]` and `&fs->inode_cache_dirty[i]`
abbrev pub loaded_at : ℕ → ℕ
loaded_at i = 94212 + i * 4

abbrev pub dirty_at : ℕ → ℕ
dirty_at i = 95236 + i * 4

abbrev pub current_dir_at : ℕ
current_dir_at = 96260

-- Offsets in `inode_t`.
abbrev pub type_of : ℕ → ℕ
type_of i = inode_at i + 32

abbrev pub size_of : ℕ → ℕ
size_of i = inode_at i + 36

abbrev pub parent_of : ℕ → ℕ
parent_of i = inode_at i + 40

abbrev pub first_child_block_of : ℕ → ℕ
first_child_block_of i = inode_at i + 44

abbrev pub block_of : ℕ → ℕ → ℕ
block_of i k = inode_at i + 48 + k * 4

abbrev pub indirect_of : ℕ → ℕ
indirect_of i = inode_at i + 96

abbrev pub symlink_target_of : ℕ → ℕ
symlink_target_of i = inode_at i + 100

abbrev pub link_count_of : ℕ → ℕ
link_count_of i = inode_at i + 356

abbrev pub target_inode_of : ℕ → ℕ
target_inode_of i = inode_at i + 360
