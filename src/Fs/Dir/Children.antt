-- ===== src/Fs/Dir/Children.antt =====
-- `get_children` after `dir_add_child` and `dir_remove_child`.
use calculatoros.Prelude.{
  ℕ, ◌+◌, ◌<◌, ◌≤◌, ◌≡◌, ◌≢◌, refl, ap, sym, subst, ◌∙◌, ◌⊎◌, inl, inr, Bool, true, false, Option,
  none, some, arith,
}
use calculatoros.Memory.{Mem}
use calculatoros.Memory.Words.{load32, store32, load32-store32_ne}
use calculatoros.Fs.Layout.{
  minus_one, max_inodes, total_blocks, data_start, type_dir, type_of, first_child_block_of,
  dirty_at, loaded_at,
}
use calculatoros.Fs.Device.{Device, IsReliable}
use calculatoros.Fs.State.{Fs, sector, dev_read, dev_write}
use calculatoros.Fs.Sectors.{needed_sectors, dev_read-dev_write_self}
use calculatoros.Fs.Inode.{is_loaded}
use calculatoros.Fs.Inode.Cache.{load_inode_loaded, load32-save_inode, save_inode_elsewhere}
use calculatoros.Fs.Dir.{
  slot, set_slot, find_slot, collect, without_child, mark_and_save, add_to_block, dir_add_child,
  get_children, dir_remove_child,
}
use calculatoros.Fs.Dir.Slots.{Inserted, collect_ext, collect_add, collect_remove, find_slot-none}

-- Inode `i` is a directory in the cache, with the block `b`.
pub record IsDir (m : Mem) (i b : ℕ) : Type 0 where
  pub valid : i < max_inodes
  pub loaded : is_loaded m i ≡ true
  pub dir : load32 m (type_of i) ≡ type_dir
  pub block : load32 m (first_child_block_of i) ≡ b

-- The same words of the entry of inode `i`.
IsDir-ext :
    {m m' : Mem} {i b : ℕ}
    → ((a : ℕ) → a < dirty_at 0 → a + 4 ≤ dirty_at 0 → load32 m' a ≡ load32 m a)
    → IsDir m i b
    → IsDir m' i b
IsDir-ext {m} {m'} {i} same d = record {
  valid = d.valid;
  loaded = let h = d.valid in rw (same (loaded_at i) (omega arith) (omega arith)) d.loaded;
  dir = let h = d.valid in same (type_of i) (omega arith) (omega arith) ∙ d.dir;
  block = let h = d.valid in same (first_child_block_of i) (omega arith) (omega arith) ∙ d.block;
}

module _ {D : Type 0} (dev : Device D) where
  -- What is listed for a directory with a block.
  get_children_block :
      (fs : Fs D) (i b : ℕ)
      → IsDir fs.mem i b
      → b < total_blocks
      → get_children dev i fs
        ≡ (collect 128 0 0 (dev_read dev fs (sector data_start b) fs.stack), fs)
  unfolding get_children
  get_children_block fs i b d h =
      rw (load_inode_loaded dev i fs d.loaded, d.dir, d.block) (ground arith)

  pub load32-mark_and_save :
      (i : ℕ) (fs : Fs D) (a : ℕ)
      → a + 4 ≤ dirty_at 0
      → load32 (mark_and_save dev i fs).mem a ≡ load32 fs.mem a
  unfolding mark_and_save
  load32-mark_and_save i fs a h =
      load32-save_inode dev i (record fs { mem = store32 fs.mem (dirty_at i) 1 }) a h
      ∙ load32-store32_ne fs.mem (dirty_at i) 1 a (inl (omega arith))

  -- What adding a child to a directory with the block `b` does to what is listed.
  abbrev pub Adds : Fs D → ℕ → ℕ → ℕ → Bool × Fs D → Type 0
  Adds fs parent b child (true, fs') =
      Inserted child (get_children dev parent fs).0 (get_children dev parent fs').0
  Adds fs parent b child (false, fs') =
      (fs' ≡ fs)
      × ((j : ℕ) → j < 128 → slot (dev_read dev fs (sector data_start b) fs.stack) j ≢ minus_one)

  add_to_block-none :
      (fs : Fs D) (parent b child : ℕ)
      → find_slot minus_one 128 0 (dev_read dev fs (sector data_start b) fs.stack) ≡ none
      → add_to_block dev b parent child fs ≡ (false, fs)
  unfolding add_to_block
  add_to_block-none fs parent b child e = rw (e, add_to_block)

  add_to_block-some :
      (fs : Fs D) (parent b child i : ℕ)
      → find_slot minus_one 128 0 (dev_read dev fs (sector data_start b) fs.stack) ≡ some i
      → add_to_block dev b parent child fs ≡ (
        true,
        mark_and_save dev parent (
            dev_write dev fs
              (sector data_start b)
              (set_slot (dev_read dev fs (sector data_start b) fs.stack) i child)),
      )
  unfolding add_to_block
  add_to_block-some fs parent b child i e = rw (e, add_to_block)

  -- What taking a child off a directory with the block `b` does to what is listed.
  abbrev pub Removes : Fs D → ℕ → ℕ → ℕ → Fs D → Type 0
  Removes fs parent b child fs' =
      Inserted child (get_children dev parent fs').0 (get_children dev parent fs).0
      ⊎ (((j : ℕ) → j < 128 → slot (dev_read dev fs (sector data_start b) fs.stack) j ≢ child)
          × ((get_children dev parent fs').0 ≡ (get_children dev parent fs).0))

  dir_remove_child_block :
      (fs : Fs D) (parent b child : ℕ)
      → IsDir fs.mem parent b
      → b < total_blocks
      → dir_remove_child dev parent child fs
        ≡ dev_write dev fs
            (sector data_start b)
            (without_child child (dev_read dev fs (sector data_start b) fs.stack))
  unfolding dir_remove_child
  dir_remove_child_block fs parent b child d h =
      rw (load_inode_loaded dev parent fs d.loaded, d.block) (ground arith)

module _ {D : Type 0} (dev : Device D) (r : IsReliable dev needed_sectors) where
  -- What is listed once `buf` is written to the block of a directory and its inode is saved.
  pub children_of_written :
      (fs : Fs D) (i b : ℕ) (buf : Mem)
      → IsDir fs.mem i b
      → b < total_blocks
      → (get_children dev i (mark_and_save dev i (dev_write dev fs (sector data_start b) buf))).0
        ≡ collect 128 0 0 buf
  unfolding dev_write
  children_of_written fs i b buf d h =
      let s = sector data_start b in
      let written = dev_write dev fs s buf in
      let saved = mark_and_save dev i written in
      let valid = d.valid in
      let d' : IsDir saved.mem i b =
        IsDir-ext (λ a p q. load32-mark_and_save dev i written a q) d in
      ap (λ o. o.0) (get_children_block dev saved i b d' h)
      ∙ collect_ext (dev_read dev saved s saved.stack) buf (λ k hk.
        unfold mark_and_save dev_read in
        save_inode_elsewhere dev r i (record written { mem = store32 fs.mem (dirty_at i) 1 }) s
          (omega arith) (omega arith) saved.stack k hk
        ∙ dev_read-dev_write_self dev r fs s buf (omega arith) saved.stack k hk)

  dir_add_child_block :
      (fs : Fs D) (i b child : ℕ)
      → IsDir fs.mem i b
      → b < total_blocks
      → dir_add_child dev i child fs ≡ add_to_block dev b i child fs
  unfolding dir_add_child
  dir_add_child_block fs i b child d h =
      rw (load_inode_loaded dev i fs d.loaded, d.block) (ground arith)

  -- For a directory with a block: where `dir_add_child` succeeds, the directory then lists one
  -- number more, the child, and every other as before, in the same order; where it fails, no slot
  -- is free and nothing has changed.
  pub get_children-dir_add_child :
      (fs : Fs D) (parent b child : ℕ)
      → IsDir fs.mem parent b
      → b < total_blocks
      → child < max_inodes
      → Adds dev fs parent b child (dir_add_child dev parent child fs)
  get_children-dir_add_child fs parent b child d h c =
      subst (Adds dev fs parent b child) (sym (dir_add_child_block fs parent b child d h))
        (added (find_slot minus_one 128 0 buf) refl)
    where
      buf : Mem
      buf = dev_read dev fs (sector data_start b) fs.stack

      added :
          (o : Option ℕ)
          → find_slot minus_one 128 0 buf ≡ o
          → Adds dev fs parent b child (add_to_block dev b parent child fs)
      added none e =
          subst (Adds dev fs parent b child) (sym (add_to_block-none dev fs parent b child e))
            (refl, λ j lt. find_slot-none minus_one 128 0 j buf e (omega arith) lt)
      added (some i) e =
          subst (Adds dev fs parent b child) (sym (add_to_block-some dev fs parent b child i e)) (
            rw
              (
                ap (λ o. o.0) (get_children_block dev fs parent b d h),
                children_of_written fs parent b (set_slot buf i child) d h,
              )
              (collect_add buf i child e c))

  children_of_replaced :
      (fs : Fs D) (i b : ℕ) (buf : Mem)
      → IsDir fs.mem i b
      → b < total_blocks
      → (get_children dev i (dev_write dev fs (sector data_start b) buf)).0 ≡ collect 128 0 0 buf
  unfolding dev_write
  children_of_replaced fs i b buf d h =
      let s = sector data_start b in
      let written = dev_write dev fs s buf in
      ap (λ o. o.0) (get_children_block dev written i b d h)
      ∙ collect_ext (dev_read dev written s written.stack) buf
          (dev_read-dev_write_self dev r fs s buf (omega arith) written.stack)

  -- On a reliable device, for a directory with a block and the number of an inode: `dir_remove_child`
  -- of a listed child takes one number off the list and keeps every other, in the same order; of a
  -- child that no slot holds it leaves the list as it is.
  pub get_children-dir_remove_child :
      (fs : Fs D) (parent b child : ℕ)
      → IsDir fs.mem parent b
      → b < total_blocks
      → child < max_inodes
      → Removes dev fs parent b child (dir_remove_child dev parent child fs)
  unfolding without_child
  get_children-dir_remove_child fs parent b child d h c =
      subst (Removes dev fs parent b child) (sym (dir_remove_child_block dev fs parent b child d h))
        (rw
          (
            ap (λ o. o.0) (get_children_block dev fs parent b d h),
            children_of_replaced fs parent b (without_child child buf) d h,
          )
          (taken (find_slot child 128 0 buf) refl))
    where
      buf : Mem
      buf = dev_read dev fs (sector data_start b) fs.stack

      taken :
          (o : Option ℕ)
          → find_slot child 128 0 buf ≡ o
          → Inserted child (collect 128 0 0 (without_child child buf)) (collect 128 0 0 buf)
            ⊎ (((j : ℕ) → j < 128 → slot buf j ≢ child)
                × (collect 128 0 0 (without_child child buf) ≡ collect 128 0 0 buf))
      taken none e =
          inr (λ j lt. find_slot-none child 128 0 j buf e (omega arith) lt, rw (e, without_child))
      taken (some i) e = inl (rw (e, without_child) (collect_remove buf i child e c))
