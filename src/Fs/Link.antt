-- ===== src/Fs/Link.antt =====
-- fs.c: hard links, symbolic links and the path of the current directory, on one file system. Hard
-- links need the paths of both to be in it.
pub mod Laws
use calculatoros.Prelude.{
  ℕ, zero, suc, ◌+◌, ◌-◌, ◌%◌, ◌^◌, Bool, true, false, not, ◌&&◌, Option, none, some, List, [], ◌∷◌,
  ◌++◌, ◌==◌, ltb, if◌then◌else◌, length, take,
}
use calculatoros.CString.{ascii, head}
use calculatoros.Memory.{Mem}
use calculatoros.Memory.Words.{load32, store32}
use calculatoros.Fs.Layout.{
  max_blocks_per_file, minus_one, type_dir, type_symlink, type_hardlink, inode_at, type_of, size_of,
  parent_of, first_child_block_of, indirect_of, symlink_target_of, link_count_of, target_inode_of,
  dirty_at, current_dir_at,
}
use calculatoros.Fs.Device.{Device}
use calculatoros.Fs.State.{Fs}
use calculatoros.Fs.Bitmaps.{alloc_inode, free_inode}
use calculatoros.Fs.Inode.{load_inode, save_inode}
use calculatoros.Fs.Dir.{dir_add_child, dir_remove_child, mark_and_save}
use calculatoros.Fs.Path.{split_path}
use calculatoros.Fs.Lookup.{
  Lookup, found, missing, out_of_fuel, find_inode, child_of, store_name, no_blocks, string_at,
}
use calculatoros.Fs.Files.{on_found, free_blocks}

-- What both kinds of links assign to a new inode, but for the target.
unfoldable pub fill_link : ℕ → List ℕ → ℕ → ℕ → Mem → Mem
fill_link id name parent kind m =
    let named = store32 (store_name (inode_at id) 31 name m) (type_of id) kind in
    let placed = store32 (store32 named (size_of id) 0) (parent_of id) parent in
    let empty =
      store32 (store32 placed (first_child_block_of id) minus_one) (indirect_of id) minus_one in
    no_blocks id max_blocks_per_file 0 empty

-- The target of a symbolic link, as it stands in the working directory `cwd`.
unfoldable pub absolute_target : List ℕ → List ℕ → List ℕ
absolute_target cwd target = if head target == b'/' then target else with_slash cwd ++ target
  where
    with_slash : List ℕ → List ℕ
    with_slash [] = b'/' ∷ []
    with_slash (c ∷ []) = if c == b'/' then c ∷ [] else c ∷ b'/' ∷ []
    with_slash (c ∷ d ∷ s) = c ∷ with_slash (d ∷ s)

module _ {D : Type 0} (dev : Device D) where
  -- The target must exist; `parent` is where the link goes, with its name.
  unfoldable pub add_link : ℕ → ℕ → Mem → Fs D → Option Bool × Fs D
  add_link id parent m fs =
      (some true, (dir_add_child dev parent id (mark_and_save dev id (record fs { mem = m }))).1)

  unfoldable pub symlink_with : List ℕ → List ℕ → ℕ → Option ℕ × Fs D → Option Bool × Fs D
  symlink_with target base parent (none, fs) = (some false, fs)
  symlink_with target base parent (some id, fs) =
      add_link id parent
        (store_name (symlink_target_of id) 255 target
          (fill_link id base parent type_symlink fs.mem))
        fs

  unfoldable pub symlink_unless : List ℕ → List ℕ → ℕ → Option ℕ × Fs D → Option Bool × Fs D
  symlink_unless target base parent (some c, fs) = (some false, fs)
  symlink_unless target base parent (none, fs) =
      symlink_with target base parent (alloc_inode dev fs)

  -- `fs_create_symlink`, where `cwd` is what `get_pwd_string` gives.
  unfoldable pub create_symlink : ℕ → List ℕ → List ℕ → List ℕ → Fs D → Option Bool × Fs D
  create_symlink fuel cwd target rel fs =
      let (dir, base) = split_path rel in
      on_found dev
        (λ target_inode fs'.
          on_found dev
            (λ parent fs''. symlink_unless target base parent (child_of dev base parent fs''))
            (find_inode dev fuel dir fs'))
        (find_inode dev fuel (absolute_target cwd target) fs)

  -- `link_count++` and `link_count--` in `uint32_t` arithmetic.
  unfoldable pub set_links : ℕ → ℕ → Fs D → Fs D
  set_links target links fs =
      mark_and_save dev target
        (record fs { mem = store32 fs.mem (link_count_of target) (links % 2 ^ 32) })

  unfoldable pub hardlink_with : ℕ → List ℕ → ℕ → Option ℕ × Fs D → Option Bool × Fs D
  hardlink_with target base parent (none, fs) = (some false, fs)
  hardlink_with target base parent (some id, fs) =
      let filled =
        store32 (fill_link id base parent type_hardlink fs.mem) (target_inode_of id) target in
      let loaded = load_inode dev target (record fs { mem = filled }) in
      let counted = set_links target (load32 loaded.mem (link_count_of target) + 1) loaded in
      add_link id parent counted.mem counted

  -- `fs_create_hardlink`, where both paths lead to this file system.
  unfoldable pub create_hardlink : ℕ → List ℕ → List ℕ → Fs D → Option Bool × Fs D
  create_hardlink fuel rel_target rel_link fs =
      let (link_dir, link_base) = split_path rel_link in
      on_found dev
        (λ target fs'.
          let loaded = load_inode dev target fs' in
          let linked =
            on_found dev
              (λ parent fs''. hardlink_with target link_base parent (alloc_inode dev fs''))
              (find_inode dev fuel link_dir loaded) in
          if load32 loaded.mem (type_of target) == type_dir then (some false, loaded) else linked)
        (find_inode dev fuel rel_target fs)

  -- What is left once the link has been removed: the target goes with its last link.
  unfoldable pub drop_target : ℕ → Fs D → Fs D
  drop_target target fs =
      if load32 fs.mem (link_count_of target) == 0
      then free_inode dev target (free_blocks dev target max_blocks_per_file 0 fs)
      else fs

  unfoldable pub remove_link : ℕ → Fs D → Fs D
  remove_link id fs =
      let target = load32 fs.mem (target_inode_of id) in
      let loaded = load_inode dev target fs in
      let counted =
        set_links target (load32 loaded.mem (link_count_of target) + (2 ^ 32 - 1)) loaded in
      let removed = dir_remove_child dev (load32 counted.mem (parent_of id)) id counted in
      drop_target target (free_inode dev id removed)

  -- `fs_delete_hardlink`.
  unfoldable pub delete_hardlink : ℕ → List ℕ → Fs D → Option Bool × Fs D
  delete_hardlink fuel path fs =
      on_found dev
        (λ id fs'.
          let loaded = load_inode dev id fs' in
          if load32 loaded.mem (type_of id) == type_hardlink
          then (some true, remove_link id loaded)
          else (some false, loaded))
        (find_inode dev fuel path fs)
