-- ===== src/Fs/Files/Unlink.antt =====
-- What the removal of a file and of a directory leaves in memory.
use calculatoros.Prelude.{ℕ, ◌+◌, ◌-◌, ◌^◌, ◌≤◌, ◌<◌, ◌≡◌, inl, ◌∙◌, true, ◌==◌, ltb, arith}
use calculatoros.Memory.Words.{load32, store32, load32-store32_self, load32-store32_ne}
use calculatoros.Fs.Layout.{
  max_inodes, max_blocks_per_file, minus_one, type_file, inode_at, type_of, size_of,
  first_child_block_of, link_count_of,
}
use calculatoros.Fs.Device.{Device}
use calculatoros.Fs.State.{Fs}
use calculatoros.Fs.Lookup.{no_blocks}
use calculatoros.Fs.Dir.Children.{load32-mark_and_save}
use calculatoros.Fs.Lookup.Blocks.{load32-no_blocks}
use calculatoros.Fs.Files.{drop_link, clear_dir}

module _ {D : Type 0} (dev : Device D) where
  -- Removing a file whose link count is not 0, as that of each new file is, lowers the count and
  -- does no more: the words before the inode cache, which hold both bitmaps, stay, so that the inode
  -- and the blocks of the file stay taken.
  pub drop_link_keeps :
      (id : ℕ) (fs : Fs D)
      → id < max_inodes
      → load32 fs.mem (type_of id) ≡ type_file
      → 0 < load32 fs.mem (link_count_of id)
      → load32 fs.mem (link_count_of id) < 2 ^ 32
      → (load32 (drop_link dev id fs).mem (link_count_of id) ≡ load32 fs.mem (link_count_of id) - 1)
        × ((a : ℕ) → a + 4 ≤ inode_at 0 → load32 (drop_link dev id fs).mem a ≡ load32 fs.mem a)
  unfolding drop_link
  drop_link_keeps id fs h kind some_links bound =
      let links = load32 fs.mem (link_count_of id) in
      let less = record fs { mem = store32 fs.mem (link_count_of id) (links - 1) } in
      let has : ltb 0 links ≡ true = ground arith in
      let file : (load32 fs.mem (type_of id) == type_file) ≡ true = ground arith in
      rw (file, has)
        (
          load32-mark_and_save dev id less (link_count_of id) (omega arith)
              ∙ load32-store32_self fs.mem (link_count_of id) (links - 1) (omega arith),
          λ a k.
              load32-mark_and_save dev id less a (omega arith)
              ∙ load32-store32_ne fs.mem (link_count_of id) (links - 1) a (inl (omega arith)),
        )

  -- A removed directory is left as an inode of the type of a file: `INODE_FREE` is `TYPE_FILE`. The
  -- words before the inode cache, which hold both bitmaps, stay, so that its inode stays taken.
  pub clear_dir_keeps :
      (id : ℕ) (fs : Fs D)
      → id < max_inodes
      → (load32 (clear_dir dev id fs).mem (type_of id) ≡ type_file)
        × ((a : ℕ) → a + 4 ≤ inode_at 0 → load32 (clear_dir dev id fs).mem a ≡ load32 fs.mem a)
  unfolding clear_dir
  clear_dir_keeps id fs h =
      let m = no_blocks id max_blocks_per_file 0 fs.mem in
      let typed = store32 m (type_of id) 0 in
      let sized = store32 typed (size_of id) 0 in
      let empty = record fs { mem = store32 sized (first_child_block_of id) minus_one } in
      (
        load32-mark_and_save dev id empty (type_of id) (omega arith)
            ∙ load32-store32_ne sized (first_child_block_of id) minus_one (type_of id)
                (inl (omega arith))
            ∙ load32-store32_ne typed (size_of id) 0 (type_of id) (inl (omega arith))
            ∙ load32-store32_self m (type_of id) 0 (omega arith),
        λ a k.
            load32-mark_and_save dev id empty a (omega arith)
            ∙ load32-store32_ne sized (first_child_block_of id) minus_one a (inl (omega arith))
            ∙ load32-store32_ne typed (size_of id) 0 a (inl (omega arith))
            ∙ load32-store32_ne m (type_of id) 0 a (inl (omega arith))
            ∙ load32-no_blocks id max_blocks_per_file 0 fs.mem a (omega arith),
      )
