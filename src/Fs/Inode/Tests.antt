-- ===== src/Fs/Inode/Tests.antt =====
-- Runs of the inode cache.
use calculatoros.Prelude.{ℕ, ◌≡◌, ◌<◌, ◌+◌, true, false, refl, arith, ◌⊎◌, ◌≤◌}
use calculatoros.Memory.{Mem}
use calculatoros.Memory.Words.{load32, store32}
use calculatoros.Fs.Layout.{inode_at, loaded_at, dirty_at}
use calculatoros.Fs.Device.Ram.{ram_device}
use calculatoros.Fs.State.{Fs, dev_read}
use calculatoros.Fs.Runs.{ram-IsReliable, blank, zeros}
use calculatoros.Fs.Inode.{load_inode, save_inode, inode_sector, is_loaded, is_dirty}
use calculatoros.Fs.Inode.Cache.{load_inode_overruns, load_inode-save_inode}

not_loaded : is_loaded blank.mem 3 ≡ false
unfolding load32
not_loaded = refl

abbrev dirty : Fs Mem
dirty = record blank { mem = store32 (λ a. 65) (dirty_at 3) 1 }

is_dirty_run : is_dirty dirty.mem 3 ≡ true
unfolding load32 store32
is_dirty_run = refl

load_inode-save_inode_example :
    (load_inode ram_device 3 (record (save_inode ram_device 3 dirty) { mem = zeros })).mem
      (inode_at 3 + 10)
    ≡ dirty.mem (inode_at 3 + 10)
load_inode-save_inode_example =
    load_inode-save_inode ram_device ram-IsReliable 3 dirty zeros 10 (omega arith) is_dirty_run
      not_loaded (omega arith)

load_inode_overruns_example :
    let m' = (load_inode ram_device 3 blank).mem in
    ((k : ℕ)
      → k < 512
      → m' (inode_at 3 + k) ≡ dev_read ram_device blank (inode_sector 3) blank.stack k)
    × (is_loaded m' 3 ≡ true)
    × (is_dirty m' 3 ≡ false)
    × ((a : ℕ) → (a < inode_at 3) ⊎ (inode_at 3 + 512 ≤ a) → a < loaded_at 0 → m' a ≡ blank.mem a)
load_inode_overruns_example = load_inode_overruns ram_device 3 blank (omega arith) not_loaded
