-- ===== src/Fs/Follow.antt =====
-- fs.c: `resolve_symlink`, which `vfs_read` and `vfs_write` call to follow the links at the end of a
-- path. A path has fewer than 256 bytes, and an inode lies less than 256 directories deep, so that
-- they fit the buffers.
pub mod Chain
mod Tests
use calculatoros.Prelude.{
  ℕ, zero, suc, ◌+◌, ◌^◌, Bool, true, false, Option, none, some, List, [], ◌∷◌, ◌++◌, ◌==◌, ltb,
  if◌then◌else◌,
}
use calculatoros.CString.{ascii, head}
use calculatoros.Memory.Words.{load32}
use calculatoros.Fs.Layout.{
  max_inodes, type_symlink, type_hardlink, inode_at, type_of, parent_of, symlink_target_of,
  target_inode_of,
}
use calculatoros.Fs.Device.{Device}
use calculatoros.Fs.State.{Fs}
use calculatoros.Fs.Inode.{load_inode}
use calculatoros.Fs.Lookup.{Lookup, found, missing, out_of_fuel, find_inode, string_at}

module _ {D : Type 0} (dev : Device D) where
  -- The loop that fills `dirs`, from `cur` up to the root, with the directory nearest to the root
  -- first; `none` is more than `dirs` holds.
  unfoldable pub climb : ℕ → ℕ → List ℕ → Fs D → Option (List ℕ) × Fs D
  climb zero cur dirs fs = (none, fs)
  climb (suc left) cur dirs fs =
      let loaded = load_inode dev cur fs in
      let up = climb left (load32 loaded.mem (parent_of cur)) (cur ∷ dirs) loaded in
      if cur == 0 then (some dirs, fs) else up

  -- `parent_path`, of the directories in `dirs`: it does not start with a slash.
  unfoldable pub joined : List ℕ → Fs D → List ℕ × Fs D
  joined [] fs = ([], fs)
  joined (i ∷ dirs) fs =
      let loaded = load_inode dev i fs in
      let (rest, fs') = joined dirs loaded in
      (string_at loaded.mem (inode_at i) 32 ++ (b'/' ∷ rest), fs')

  -- The directory's path, in front of the target.
  unfoldable pub full_path : List ℕ → ℕ → Option (List ℕ) × Fs D → Option (List ℕ) × Fs D
  full_path target parent (none, fs) = (none, fs)
  full_path target parent (some dirs, fs) =
      let (path, fs') = joined dirs fs in
      (some ((if parent == 0 then ascii "/" else path) ++ target), fs')

  -- The path that the target of the symbolic link `id` stands for.
  unfoldable pub link_path : ℕ → Fs D → Option (List ℕ) × Fs D
  link_path id fs =
      let target = string_at fs.mem (symlink_target_of id) 256 in
      let parent = load32 fs.mem (parent_of id) in
      let relative = full_path target parent (climb (max_inodes + 1) parent [] fs) in
      if head target == b'/' then (some target, fs) else relative

  unfoldable pub find_link : ℕ → Option (List ℕ) × Fs D → Lookup × Fs D
  find_link fuel (none, fs) = (out_of_fuel, fs)
  find_link fuel (some path, fs) = find_inode dev fuel path fs

  -- A hard link's target, where it is not a negative `int`.
  unfoldable pub hard_target : ℕ → Fs D → Lookup × Fs D
  hard_target id fs =
      let target = load32 fs.mem (target_inode_of id) in
      (if ltb target (2 ^ 31) then found target else missing, fs)

  -- What follows the search for the target.
  unfoldable pub go_on : (ℕ → Fs D → Lookup × Fs D) → Lookup × Fs D → Lookup × Fs D
  go_on next (missing, fs) = (missing, fs)
  go_on next (out_of_fuel, fs) = (out_of_fuel, fs)
  go_on next (found t, fs) = next t fs

  -- `resolve_symlink` at the depth from which `levels` calls are left: 11 at first.
  unfoldable pub resolve_symlink : ℕ → ℕ → ℕ → Fs D → Lookup × Fs D
  resolve_symlink fuel zero id fs = (missing, fs)
  resolve_symlink fuel (suc levels) id fs =
      let loaded = load_inode dev id fs in
      let kind = load32 loaded.mem (type_of id) in
      if kind == type_symlink
      then go_on (resolve_symlink fuel levels) (find_link fuel (link_path id loaded))
      else if kind == type_hardlink
      then hard_target id loaded
      else (found id, loaded)
