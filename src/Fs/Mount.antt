-- ===== src/Fs/Mount.antt =====
-- Mounting in fs.c: `fs_mount` and `fs_umount`, and the calls that resolve a path first. Each device
-- is mounted once at a time, so that every instance has the state of its device to itself. A result
-- `none` of `fs_mount` is the use of an instance outside the array `instances`.
pub mod Table
pub mod Current
mod Tests
use calculatoros.Prelude.{
  ℕ, zero, suc, ◌+◌, Bool, true, false, not, ◌&&◌, Option, none, some, List, [], ◌∷◌, ◌++◌, ◌==◌,
  ltb, leb, length, take, if◌then◌else◌,
}
use calculatoros.CString.{ascii, streq}
use calculatoros.Memory.{Mem}
use calculatoros.Memory.Words.{store32}
use calculatoros.Fs.Layout.{superblock_sector, max_inodes, loaded_at, dirty_at, current_dir_at}
use calculatoros.Fs.Device.{Device}
use calculatoros.Fs.State.{Fs, dev_read}
use calculatoros.Fs.Bitmaps.{load_bitmap, load_inode_bitmap}
use calculatoros.Fs.Inode.{load_inode}
use calculatoros.Fs.Files.{change_dir}
use calculatoros.Fs.Path.{Mount, is_root, vfs_resolve}

abbrev pub max_mounts : ℕ
max_mounts = 8

-- `instances`, `instance_count`, `vfs_mounts` up to its count, and the index that `current_fs` points
-- to. The array has the `max_mounts` instances below that index; what the function gives from there
-- on stands for nothing in the program.
pub record Vfs (D : Type 0) : Type 0 where
  pub instances : ℕ → Fs D
  pub instance_count : ℕ
  pub mounts : List Mount
  pub current : Option ℕ

-- `inode_cache_loaded[i] = 0` and `inode_cache_dirty[i] = 0` for the `left` inodes from `i` on.
unfoldable pub forget : ℕ → ℕ → Mem → Mem
forget zero i m = m
forget (suc left) i m = forget left (i + 1) (store32 (store32 m (loaded_at i) 0) (dirty_at i) 0)

unfoldable pub has_magic : Mem → Bool
has_magic b = b 0 == b'M' && (b 1 == b'F' && b 2 == b'S')

-- The instance `n` becomes `fs`.
abbrev pub set_instance : {D : Type 0} → ℕ → Fs D → Vfs D → Vfs D
set_instance n fs v = record v { instances = λ i. if i == n then fs else v.instances i }

-- The index of the mount point, from the index `i` on.
unfoldable pub find_mount : ℕ → List ℕ → List Mount → Option ℕ
find_mount i point [] = none
find_mount i point (m ∷ ms) =
    let rest = find_mount (i + 1) point ms in if streq m.path point then some i else rest

-- `vfs_mounts` with the entries after `i` moved down by one.
unfoldable pub without_mount : ℕ → List Mount → List Mount
without_mount i [] = []
without_mount zero (m ∷ ms) = ms
without_mount (suc i) (m ∷ ms) = m ∷ without_mount i ms

abbrev pub fs_at : ℕ → List Mount → Option ℕ
fs_at i [] = none
fs_at zero (m ∷ ms) = some m.fs
fs_at (suc i) (m ∷ ms) = fs_at i ms

abbrev pub same_fs : Option ℕ → Option ℕ → Bool
same_fs none none = true
same_fs none (some b) = false
same_fs (some a) none = false
same_fs (some a) (some b) = a == b

module _ {D : Type 0} where
  -- What follows the search of the mount point.
  unfoldable pub umount_at : Option ℕ → List ℕ → Vfs D → Bool × Vfs D
  umount_at none point v = (false, v)
  umount_at (some i) point v =
      if is_root point
      then (false, v)
      else if same_fs v.current (fs_at i v.mounts)
      then (false, v)
      else (true, record v { mounts = without_mount i v.mounts })

  unfoldable pub fs_umount : List ℕ → Vfs D → Bool × Vfs D
  fs_umount point v = umount_at (find_mount 0 point v.mounts) point v

module _ {D : Type 0} (dev : Device D) where
  -- The instance once the superblock has been found.
  unfoldable pub loaded_fs : Fs D → Fs D
  loaded_fs fs =
      let clean = record fs { mem = forget max_inodes 0 fs.mem } in
      let root = load_inode dev 0 (load_inode_bitmap dev (load_bitmap dev clean)) in
      record root { mem = store32 root.mem current_dir_at 0 }

  unfoldable pub add_mount : List ℕ → Fs D → Vfs D → Vfs D
  add_mount point fs v = record (set_instance v.instance_count fs v) {
    instance_count = v.instance_count + 1;
    mounts = v.mounts ++ (record { path = take 255 point; fs = v.instance_count } ∷ []);
    current = if is_root point then some v.instance_count else v.current;
  }

  -- `fs_mount` of the device in the state `d`. The count of the mounts is tested, that of the
  -- instances is not: past the end of the array there is no result.
  unfoldable pub fs_mount : D → List ℕ → Vfs D → Option (Bool × Vfs D)
  fs_mount d point v =
      let fs = record (v.instances v.instance_count) { disk = d } in
      if leb max_mounts (length v.mounts)
      then some (false, v)
      else if leb max_mounts v.instance_count
      then none
      else if not (has_magic (dev_read dev fs superblock_sector fs.stack))
      then some (false, set_instance v.instance_count fs v)
      else some (true, add_mount point (loaded_fs fs) v)

  -- What follows `vfs_resolve`: `op` on the file system, if there is one, with the path below the
  -- mount point.
  unfoldable pub on_resolved :
      (List ℕ → Fs D → Option Bool × Fs D) → Option ℕ × List ℕ → Vfs D → Option Bool × Vfs D
  on_resolved op (none, rel) v = (some false, v)
  on_resolved op (some n, rel) v = let r = op rel (v.instances n) in (r.0, set_instance n r.1 v)

  unfoldable pub on_path :
      (List ℕ → Fs D → Option Bool × Fs D) → List ℕ → Vfs D → Option Bool × Vfs D
  on_path op path v = on_resolved op (vfs_resolve path v.current v.mounts) v

  -- What follows the first `vfs_resolve` of `vfs_create_file`, `vfs_create_dir`, `vfs_remove_file`
  -- and `vfs_remove_dir`: the operation resolves the path that is left once more.
  unfoldable pub again :
      (List ℕ → Fs D → Option Bool × Fs D) → Option ℕ × List ℕ → Vfs D → Option Bool × Vfs D
  again op (none, rel) v = (some false, v)
  again op (some n, rel) v = on_path op rel v

  unfoldable pub resolved_twice :
      (List ℕ → Fs D → Option Bool × Fs D) → List ℕ → Vfs D → Option Bool × Vfs D
  resolved_twice op path v = again op (vfs_resolve path v.current v.mounts) v

  -- What follows the change in the file system `chosen`: it becomes the current one.
  unfoldable pub made_current : Option ℕ → Option Bool × Vfs D → Option (Vfs D)
  made_current chosen (none, v) = none
  made_current chosen (some changed, v) =
      some (if changed then record v { current = chosen } else v)

  -- A change of directory makes the file system of the path the current one; a search that does not
  -- end has no result.
  unfoldable pub fs_cd : ℕ → List ℕ → Vfs D → Option (Vfs D)
  fs_cd fuel path v =
      made_current (vfs_resolve path v.current v.mounts).0 (on_path (change_dir dev fuel) path v)
