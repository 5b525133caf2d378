-- ===== src/Fs/Link/Laws.antt =====
-- What the removal of a hard link does to the target.
use calculatoros.Prelude.{
  ℕ, ◌+◌, ◌-◌, ◌%◌, ◌^◌, ◌<◌, ◌≤◌, ◌≡◌, ◌∙◌, ◌⊎◌, refl, ap, leb, not, inl, inr, true, false,
  Bool-cases, ◌==◌, arith,
}
use calculatoros.Bitmap
use calculatoros.Memory.Words.{load32, load32-store32_self, load32-store32_ne}
use calculatoros.Fs.Layout.{
  max_inodes, minus_one, inode_at, link_count_of, target_inode_of, parent_of, loaded_at, dirty_at,
  inode_bitmap_at, first_child_block_of,
}
use calculatoros.Fs.Device.{Device}
use calculatoros.Fs.State.{Fs, dev_write}
use calculatoros.Fs.Bitmaps.{free_inode}
use calculatoros.Fs.Bitmaps.Saved.{mem-save_inode_bitmap}
use calculatoros.Fs.Inode.{is_loaded}
use calculatoros.Fs.Inode.Cache.{load_inode_loaded}
use calculatoros.Fs.Dir.{dir_remove_child}
use calculatoros.Fs.Dir.Children.{load32-mark_and_save}
use calculatoros.Fs.Link.{set_links, remove_link, drop_target}

fields_apart : (i t : ℕ) → (parent_of i + 4 ≤ link_count_of t) ⊎ (link_count_of t + 4 ≤ parent_of i)
fields_apart i t = elim (Bool-cases (leb i t)) [
  | inl y ↦ (let le : i ≤ t = ground arith in inl (omega arith))
  | inr n ↦ (let gt : t < i = ground arith in inr (omega arith))
]

module _ {D : Type 0} (dev : Device D) where
  links-set_links :
      (t n : ℕ) (fs : Fs D)
      → t < max_inodes
      → load32 (set_links dev t n fs).mem (link_count_of t) ≡ n % 2 ^ 32
  unfolding set_links
  links-set_links t n fs h =
      load32-mark_and_save dev t _ (link_count_of t) (omega arith)
      ∙ load32-store32_self fs.mem (link_count_of t) (n % 2 ^ 32) (omega arith)

  -- The other words below the dirty flags stay.
  load32-set_links :
      (t n : ℕ) (fs : Fs D) (a : ℕ)
      → a + 4 ≤ dirty_at 0
      → (a + 4 ≤ link_count_of t) ⊎ (link_count_of t + 4 ≤ a)
      → load32 (set_links dev t n fs).mem a ≡ load32 fs.mem a
  unfolding set_links
  load32-set_links t n fs a h o =
      load32-mark_and_save dev t _ a h ∙ load32-store32_ne fs.mem (link_count_of t) (n % 2 ^ 32) a o

  mem-dir_remove_child :
      (parent child : ℕ) (fs : Fs D)
      → is_loaded fs.mem parent ≡ true
      → (dir_remove_child dev parent child fs).mem ≡ fs.mem
  unfolding dir_remove_child dev_write
  mem-dir_remove_child parent child fs h =
      elim (Bool-cases (load32 fs.mem (first_child_block_of parent) == minus_one)) [
        | inl y ↦ rw (load_inode_loaded dev parent fs h, y) refl
        | inr n ↦ rw (load_inode_loaded dev parent fs h, n) refl
      ]

  load32-free_inode :
      (i : ℕ) (fs : Fs D) (a : ℕ)
      → i < max_inodes
      → inode_at 0 ≤ a
      → load32 (free_inode dev i fs).mem a ≡ load32 fs.mem a
  unfolding free_inode Bitmap.clear load32
  load32-free_inode i fs a h k =
      rw (mem-save_inode_bitmap dev (record fs { mem = Bitmap.clear inode_bitmap_at fs.mem i }))
        (ground arith)

  -- Removing a hard link whose target has further links lowers the target's count by one: it does
  -- not become 0, with which the target would be freed. The target and the directory are loaded.
  pub remove_link-links :
      (id : ℕ) (fs : Fs D)
      → let target = load32 fs.mem (target_inode_of id) in
        let links = load32 fs.mem (link_count_of target) in
        id < max_inodes
        → target < max_inodes
        → load32 fs.mem (parent_of id) < max_inodes
        → is_loaded fs.mem target ≡ true
        → is_loaded fs.mem (load32 fs.mem (parent_of id)) ≡ true
        → 1 < links
        → links < 2 ^ 32
        → load32 (remove_link dev id fs).mem (link_count_of target) ≡ links - 1
  unfolding remove_link drop_target
  remove_link-links id fs h t p there loaded more bound =
      let target = load32 fs.mem (target_inode_of id) in
      let parent = load32 fs.mem (parent_of id) in
      let links = load32 fs.mem (link_count_of target) in
      let counted = set_links dev target (links + (2 ^ 32 - 1)) fs in
      let count : load32 counted.mem (link_count_of target) ≡ links - 1 =
        links-set_links target (links + (2 ^ 32 - 1)) fs t ∙ omega arith in
      let up : load32 counted.mem (parent_of id) ≡ parent =
        load32-set_links target (links + (2 ^ 32 - 1)) fs (parent_of id) (omega arith)
          (fields_apart id target) in
      let still : is_loaded counted.mem parent ≡ true =
        ap (λ w. not (w == 0))
          (load32-set_links target (links + (2 ^ 32 - 1)) fs (loaded_at parent) (omega arith)
            (inr (omega arith)))
        ∙ loaded in
      let removed = dir_remove_child dev parent id counted in
      let kept : load32 (free_inode dev id removed).mem (link_count_of target) ≡ links - 1 =
        load32-free_inode id removed (link_count_of target) h (omega arith)
        ∙ ap (λ m. load32 m (link_count_of target)) (mem-dir_remove_child parent id counted still)
        ∙ count in
      let more_left : (links - 1 == 0) ≡ false = ground arith in
      rw (load_inode_loaded dev target fs there, up, kept, more_left) kept
