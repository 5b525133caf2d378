-- ===== src/Fs/Files.antt =====
-- The operations of fs.c on one mounted file system, for a path below its mount point. A result
-- `false` is 0, and `none` is a search that has not ended within its fuel; what is printed is left
-- out.
pub mod Unlink
use calculatoros.Prelude.{
  ℕ, zero, suc, ◌+◌, ◌-◌, Bool, true, false, not, ◌&&◌, ◌||◌, Option, none, some, List, [], ◌∷◌,
  ◌==◌, ltb, if◌then◌else◌,
}
use calculatoros.CString.{ascii}
use calculatoros.Memory.{Mem}
use calculatoros.Memory.Words.{load32, store32}
use calculatoros.Fs.Layout.{
  max_blocks_per_file, minus_one, type_file, type_dir, type_symlink, type_of, size_of, parent_of,
  first_child_block_of, block_of, link_count_of, dirty_at, current_dir_at,
}
use calculatoros.Fs.Device.{Device}
use calculatoros.Fs.State.{Fs}
use calculatoros.Fs.Bitmaps.{free_block, free_inode}
use calculatoros.Fs.Inode.{load_inode, save_inode}
use calculatoros.Fs.Dir.{get_children, dir_remove_child, mark_and_save}
use calculatoros.Fs.Path.{split_path, is_root}
use calculatoros.Fs.Lookup.{
  Lookup, found, missing, out_of_fuel, child_of, create_inode, find_inode, no_blocks,
}

-- `id >= 0` of a result of `create_inode`.
abbrev pub is_created : {D : Type 0} → Option ℕ × Fs D → Option Bool × Fs D
is_created (none, fs) = (some false, fs)
is_created (some id, fs) = (some true, fs)

-- `INODE_FREE`, the same number as `TYPE_FILE`.
abbrev pub inode_free : ℕ
inode_free = 0

module _ {D : Type 0} (dev : Device D) where
  -- Goes on with the inode that a path leads to, or returns 0; a search that does not end has no
  -- result.
  unfoldable pub on_found : (ℕ → Fs D → Option Bool × Fs D) → Lookup × Fs D → Option Bool × Fs D
  on_found k (missing, fs) = (some false, fs)
  on_found k (out_of_fuel, fs) = (none, fs)
  on_found k (found id, fs) = k id fs

  -- `fs_create_file` looks for the name, and then `create_inode` does so again.
  unfoldable pub create_unless_there : List ℕ → ℕ → Option ℕ × Fs D → Option Bool × Fs D
  create_unless_there base parent (some c, fs) = (some false, fs)
  create_unless_there base parent (none, fs) =
      is_created (create_inode dev base parent type_file fs)

  unfoldable pub create_file : ℕ → List ℕ → Fs D → Option Bool × Fs D
  create_file fuel path fs =
      let parts = split_path path in
      on_found (λ parent fs'. create_unless_there parts.1 parent (child_of dev parts.1 parent fs'))
        (find_inode dev fuel parts.0 fs)

  unfoldable pub create_dir : ℕ → List ℕ → Fs D → Option Bool × Fs D
  create_dir fuel path fs =
      let parts = split_path path in
      on_found
        (λ parent fs'.
          let loaded = load_inode dev parent fs' in
          if not (load32 loaded.mem (type_of parent) == type_dir)
          then (some false, loaded)
          else is_created (create_inode dev parts.1 parent type_dir loaded))
        (find_inode dev fuel parts.0 fs)

  -- The loop of `fs_remove_file` over the direct blocks from `i` on.
  unfoldable pub free_blocks : ℕ → ℕ → ℕ → Fs D → Fs D
  free_blocks id zero i fs = fs
  free_blocks id (suc left) i fs =
      let b = load32 fs.mem (block_of id i) in
      let freed = free_block dev b fs in
      free_blocks id left (i + 1) (
        if b == minus_one
        then fs
        else record freed { mem = store32 freed.mem (block_of id i) minus_one })

  -- What follows the removal from the directory.
  unfoldable pub drop_link : ℕ → Fs D → Fs D
  drop_link id fs =
      let links = load32 fs.mem (link_count_of id) in
      if load32 fs.mem (type_of id) == type_file
      then if ltb 0 links
        then mark_and_save dev id
            (record fs { mem = store32 fs.mem (link_count_of id) (links - 1) })
        else free_inode dev id (free_blocks id max_blocks_per_file 0 fs)
      else free_inode dev id fs

  unfoldable pub remove_file : ℕ → List ℕ → Fs D → Option Bool × Fs D
  remove_file fuel path fs =
      on_found
        (λ id fs'.
          let loaded = load_inode dev id fs' in
          let kind = load32 loaded.mem (type_of id) in
          if not (kind == type_file) && not (kind == type_symlink) then (some false, loaded) else (
            some true,
            drop_link id (dir_remove_child dev (load32 loaded.mem (parent_of id)) id loaded),
          ))
        (find_inode dev fuel path fs)

  -- What `fs_remove_dir` does to the inode; its bit in the bitmap stays.
  unfoldable pub clear_dir : ℕ → Fs D → Fs D
  clear_dir id fs =
      let cleared = store32 (no_blocks id max_blocks_per_file 0 fs.mem) (type_of id) inode_free in
      let sized = store32 cleared (size_of id) 0 in
      mark_and_save dev id (record fs { mem = store32 sized (first_child_block_of id) minus_one })

  -- The directory must have no children.
  unfoldable pub remove_if_empty : ℕ → List ℕ × Fs D → Option Bool × Fs D
  remove_if_empty id (c ∷ cs, fs) = (some false, fs)
  remove_if_empty id ([], fs) =
      (some true, clear_dir id (dir_remove_child dev (load32 fs.mem (parent_of id)) id fs))

  unfoldable pub remove_dir : ℕ → List ℕ → Fs D → Option Bool × Fs D
  remove_dir fuel path fs =
      on_found
        (λ id fs'.
          let loaded = load_inode dev id fs' in
          if not (load32 loaded.mem (type_of id) == type_dir)
          then (some false, loaded)
          else remove_if_empty id (get_children dev id loaded))
        (find_inode dev fuel path fs)

  -- `fs_cd` once the file system is chosen; `true` is a change of its directory.
  unfoldable pub change_dir : ℕ → List ℕ → Fs D → Option Bool × Fs D
  change_dir fuel path fs =
      if is_root path
      then (some true, record fs { mem = store32 fs.mem current_dir_at 0 })
      else on_found
          (λ id fs'.
            let loaded = load_inode dev id fs' in
            if not (load32 loaded.mem (type_of id) == type_dir)
            then (some false, loaded)
            else (some true, record loaded { mem = store32 loaded.mem current_dir_at id }))
          (find_inode dev fuel path fs)
