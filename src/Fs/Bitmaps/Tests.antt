-- ===== src/Fs/Bitmaps/Tests.antt =====
-- Runs of the bitmaps.
use calculatoros.Prelude.{arith}
use calculatoros.Memory.{from}
use calculatoros.Fs.State.{dev_read}
use calculatoros.Fs.Sectors.{Holds}
use calculatoros.Fs.Layout.{
  block_bitmap_at, block_bitmap_start, inode_bitmap_at, total_blocks, max_inodes,
}
use calculatoros.Fs.Device.Ram.{ram_device, ram_read}
use calculatoros.Fs.Runs.{ram-IsReliable, blank}
use calculatoros.Fs.Bitmaps.{alloc_block, alloc_inode}
use calculatoros.Fs.Bitmaps.Saved.{Allocated}
use calculatoros.Fs.Bitmaps.Alloc.{alloc_block-Allocated, alloc_inode-Allocated}

alloc_block-Allocated_example :
    Allocated ram_device block_bitmap_at 0 total_blocks blank (alloc_block ram_device blank)
alloc_block-Allocated_example = alloc_block-Allocated ram_device ram-IsReliable blank

-- Both the bitmap of the blocks in memory and that on disk are zeros.
blank-Holds : Holds ram_device blank block_bitmap_start (from blank.mem block_bitmap_at)
unfolding dev_read ram_read
blank-Holds buf k h = ground arith

alloc_inode-Allocated_example :
    Allocated ram_device inode_bitmap_at 1 max_inodes blank (alloc_inode ram_device blank)
alloc_inode-Allocated_example = alloc_inode-Allocated ram_device ram-IsReliable blank blank-Holds
