-- ===== src/Fs/Format/Mounted.antt =====
-- A formatted device is mounted as an empty file system.
use calculatoros.Prelude.{
  ℕ, zero, suc, ◌+◌, ◌-◌, ◌*◌, ◌/◌, ◌%◌, ◌<◌, ◌≤◌, ◌≡◌, ◌∙◌, refl, ap, sym, subst, inl, arith, true,
  false, some, ◌==◌, List, length, leb,
}
use calculatoros.Memory.{Mem, memcpy, from}
use calculatoros.Memory.Words.{load32, store32, store32_ne, load32-store32_self, load32-store32_ne}
use calculatoros.Bitmap
use calculatoros.Bitmap.Laws.{test_bit_zero}
use calculatoros.Fs.Layout.{
  superblock_sector, max_inodes, inode_at, total_blocks, max_blocks_per_file, inode_size, minus_one,
  type_dir, sizeof_inode, type_of, size_of, parent_of, first_child_block_of, indirect_of, loaded_at,
  dirty_at, current_dir_at, block_bitmap_at, inode_bitmap_at,
}
use calculatoros.Fs.Device.{Device, IsReliable}
use calculatoros.Fs.State.{Fs, valid_inode, dev_read}
use calculatoros.Fs.Sectors.{needed_sectors}
use calculatoros.Fs.Bitmaps.{load_bitmap, load_inode_bitmap}
use calculatoros.Fs.Inode.{load_inode, is_loaded, inode_sector, inode_offset}
use calculatoros.Fs.Dir.Children.{IsDir}
use calculatoros.Fs.Lookup.Blocks.{load32-no_blocks}
use calculatoros.Fs.Mount.{Vfs, forget, has_magic, loaded_fs, add_mount, fs_mount, max_mounts}
use calculatoros.Fs.Format.{magic, root_inode, root_sector, fs_format}
use calculatoros.Fs.Format.Written.{IsFormatted, fs_format-IsFormatted}

-- The root is a directory.
root_inode-type : (m : Mem) → load32 (root_inode m) (type_of 0) ≡ type_dir
unfolding root_inode
root_inode-type m =
    load32-no_blocks 0 max_blocks_per_file 0 _ (type_of 0) (omega arith)
    ∙ load32-store32_ne _ (first_child_block_of 0) minus_one (type_of 0) (inl (omega arith))
    ∙ load32-store32_ne _ (indirect_of 0) minus_one (type_of 0) (inl (omega arith))
    ∙ load32-store32_ne _ (size_of 0) 0 (type_of 0) (inl (omega arith))
    ∙ load32-store32_ne _ (parent_of 0) 0 (type_of 0) (inl (omega arith))
    ∙ load32-store32_self _ (type_of 0) type_dir (omega arith)

-- It has no block of children.
root_inode-first : (m : Mem) → load32 (root_inode m) (first_child_block_of 0) ≡ minus_one
unfolding root_inode
root_inode-first m =
    load32-no_blocks 0 max_blocks_per_file 0 _ (first_child_block_of 0) (omega arith)
    ∙ load32-store32_self _ (first_child_block_of 0) minus_one (omega arith)

-- `forget` clears the flags of every inode.
load32-forget :
    (left i : ℕ) (m : Mem) (j : ℕ)
    → j < i
    → i + left ≤ max_inodes
    → load32 (forget left i m) (loaded_at j) ≡ load32 m (loaded_at j)
unfolding forget
load32-forget zero i m j h k = refl
load32-forget (suc left) i m j h k =
    load32-forget left (i + 1) _ j (omega arith) (omega arith)
    ∙ load32-store32_ne _ (dirty_at i) 0 (loaded_at j) (inl (omega arith))
    ∙ load32-store32_ne m (loaded_at i) 0 (loaded_at j) (inl (omega arith))

forget_first : (m : Mem) → load32 (forget max_inodes 0 m) (loaded_at 0) ≡ 0
unfolding forget
forget_first m =
    load32-forget 255 1 _ 0 (omega arith) (omega arith)
    ∙ load32-store32_ne _ (dirty_at 0) 0 (loaded_at 0) (inl (omega arith))
    ∙ load32-store32_self m (loaded_at 0) 0 (omega arith)

-- A byte of the root in its sector, and then in the cache.
copied_byte :
    (stack m buf : Mem) (a : ℕ)
    → ((k : ℕ) → k < 512 → buf k ≡ root_sector stack k)
    → inode_at 0 ≤ a
    → a < inode_at 0 + sizeof_inode
    → memcpy m (inode_at 0) (from buf (inode_offset 0)) inode_size a ≡ root_inode stack a
unfolding root_sector
copied_byte stack m buf a h lo hi =
    let e : inode_at 0 + (a - inode_at 0) ≡ a = omega arith in
    let e' : inode_at 0 + (a - inode_at 0 - 0) ≡ a = omega arith in
    let byte = h (a - inode_at 0) (omega arith) in
    ground (arith, ap (root_inode stack) e, ap (root_inode stack) e')

copied_word :
    (stack m buf : Mem) (a : ℕ)
    → ((k : ℕ) → k < 512 → buf k ≡ root_sector stack k)
    → inode_at 0 ≤ a
    → a + 4 ≤ inode_at 0 + sizeof_inode
    → load32 (memcpy m (inode_at 0) (from buf (inode_offset 0)) inode_size) a
      ≡ load32 (root_inode stack) a
unfolding load32
copied_word stack m buf a h lo hi =
    rw
      (
        copied_byte stack m buf a h lo (omega arith),
        copied_byte stack m buf (a + 1) h (omega arith) (omega arith),
        copied_byte stack m buf (a + 2) h (omega arith) (omega arith),
        copied_byte stack m buf (a + 3) h (omega arith) (omega arith),
      )
      refl

-- The flags of the root and the current directory lie behind the cache.
abbrev rooted : Mem → Mem
rooted m = store32 (store32 (store32 m (loaded_at 0) 1) (dirty_at 0) 0) current_dir_at 0

rooted_byte : (m : Mem) (a : ℕ) → a < loaded_at 0 → rooted m a ≡ m a
rooted_byte m a h =
    store32_ne _ current_dir_at 0 a (inl (omega arith))
    ∙ store32_ne _ (dirty_at 0) 0 a (inl (omega arith))
    ∙ store32_ne m (loaded_at 0) 1 a (inl h)

rooted_word : (m : Mem) (a : ℕ) → a + 4 ≤ loaded_at 0 → load32 (rooted m) a ≡ load32 m a
rooted_word m a h =
    load32-store32_ne _ current_dir_at 0 a (inl (omega arith))
    ∙ load32-store32_ne _ (dirty_at 0) 0 a (inl (omega arith))
    ∙ load32-store32_ne m (loaded_at 0) 1 a (inl h)

rooted_loaded : (m : Mem) → is_loaded (rooted m) 0 ≡ true
rooted_loaded m =
    let e =
      load32-store32_ne (store32 (store32 m (loaded_at 0) 1) (dirty_at 0) 0) current_dir_at 0
        (loaded_at 0) (inl (omega arith))
      ∙ load32-store32_ne _ (dirty_at 0) 0 (loaded_at 0) (inl (omega arith))
      ∙ load32-store32_self m (loaded_at 0) 1 (omega arith) in
    rw e refl

-- A bitmap of zeros.
zeros-test :
    (base : ℕ) (m : Mem) (bits : ℕ)
    → ((a : ℕ) → base ≤ a → a < base + bits / 8 → m a ≡ 0)
    → (j : ℕ) → j < bits / 8 * 8
    → Bitmap.test base m j ≡ false
unfolding Bitmap.test
zeros-test base m bits h j k =
    rw (h (base + j / 8) (omega arith) (omega arith)) (test_bit_zero (j % 8) (omega arith))

module _ {D : Type 0} (dev : Device D) where
  -- Both bitmaps are read from the disk, and no byte elsewhere is changed.
  pub record IsLoaded (fs fs' : Fs D) : Type 0 where
    pub zeros : (a : ℕ) → block_bitmap_at ≤ a → a < inode_at 0 → fs'.mem a ≡ 0
    pub same : (a : ℕ) → inode_at 0 ≤ a → fs'.mem a ≡ fs.mem a
    pub disk : fs'.disk ≡ fs.disk

  words_same :
      {fs fs' : Fs D}
      → IsLoaded fs fs'
      → (a : ℕ) → inode_at 0 ≤ a
      → load32 fs'.mem a ≡ load32 fs.mem a
  unfolding load32
  words_same l a h =
      rw
        (
          l.same a h,
          l.same (a + 1) (omega arith),
          l.same (a + 2) (omega arith),
          l.same (a + 3) (omega arith),
        )
        refl

  read_root :
      (stack : Mem) (fs : Fs D)
      → IsFormatted dev stack fs.disk
      → (k : ℕ) → k < 512
      → dev_read dev fs (inode_sector 0) fs.stack k ≡ root_sector stack k
  unfolding dev_read
  read_root stack fs f k h = f.root fs.stack k h

  load_bitmaps-IsLoaded :
      (stack : Mem) (fs : Fs D)
      → IsFormatted dev stack fs.disk
      → IsLoaded fs (load_inode_bitmap dev (load_bitmap dev fs))
  unfolding load_inode_bitmap load_bitmap dev_read
  load_bitmaps-IsLoaded stack fs f = record {
    zeros = λ a h k.
        let m = (load_bitmap dev fs).mem in
        let blocks : a < 516 → dev.read fs.disk 257 (from fs.mem 4) (a - 4) ≡ 0 =
          λ l. f.blocks (from fs.mem 4) (a - 4) (omega arith) in
        let inodes : 516 ≤ a → dev.read fs.disk 258 (from m 516) (a - 516) ≡ 0 =
          λ l. f.inodes (from m 516) (a - 516) (omega arith) in
        ground arith;
    same = λ a h. ground arith;
    disk = refl;
  }

  -- An empty file system: every block and inode is free, and the root, the current directory, has
  -- no children.
  pub record IsEmpty (fs : Fs D) : Type 0 where
    pub blocks : (j : ℕ) → j < total_blocks → Bitmap.test block_bitmap_at fs.mem j ≡ false
    pub inodes : (j : ℕ) → j < max_inodes → Bitmap.test inode_bitmap_at fs.mem j ≡ false
    pub root : IsDir fs.mem 0 minus_one
    pub current : load32 fs.mem current_dir_at ≡ 0

  load_inode_unloaded :
      (fs : Fs D) (i : ℕ)
      → i < max_inodes
      → load32 fs.mem (loaded_at i) ≡ 0
      → load_inode dev i fs ≡ record fs {
        mem =
            store32
              (store32
                (memcpy fs.mem
                  (inode_at i)
                  (from (dev_read dev fs (inode_sector i) fs.stack) (inode_offset i))
                  inode_size)
                (loaded_at i)
                1)
              (dirty_at i)
              0;
      }
  unfolding load_inode valid_inode
  load_inode_unloaded fs i h k = ground arith

  -- What `fs_mount` reads from a formatted device.
  loaded_fs-IsEmpty :
      (stack : Mem) (fs : Fs D) → IsFormatted dev stack fs.disk → IsEmpty (loaded_fs dev fs)
  unfolding loaded_fs
  loaded_fs-IsEmpty stack fs f =
      let clean : Fs D = record fs { mem = forget max_inodes 0 fs.mem } in
      let s : Fs D = load_inode_bitmap dev (load_bitmap dev clean) in
      let l : IsLoaded clean s = load_bitmaps-IsLoaded stack clean f in
      let flag : load32 s.mem (loaded_at 0) ≡ 0 =
        words_same l (loaded_at 0) (omega arith) ∙ forget_first fs.mem in
      let buf : Mem = dev_read dev s (inode_sector 0) s.stack in
      let read : (k : ℕ) → k < 512 → buf k ≡ root_sector stack k =
        λ k h. read_root stack s (subst (λ d. IsFormatted dev stack d) (sym l.disk) f) k h in
      let m : Mem = memcpy s.mem (inode_at 0) (from buf (inode_offset 0)) inode_size in
      rw (load_inode_unloaded s 0 (omega arith) flag) (record {
        blocks = zeros-test block_bitmap_at _ total_blocks (λ a h k.
            rooted_byte m a (omega arith) ∙ ground (arith, l.zeros a (omega arith) (omega arith)));
        inodes = λ j h.
            zeros-test inode_bitmap_at _ 256
              (λ a h k.
                rooted_byte m a (omega arith)
                ∙ ground (arith, l.zeros a (omega arith) (omega arith)))
              j (omega arith);
        root = record {
          valid = omega arith;
          loaded = rooted_loaded m;
          dir =
              rooted_word m (type_of 0) (omega arith)
              ∙ copied_word stack s.mem buf (type_of 0) read (omega arith) (omega arith)
              ∙ root_inode-type stack;
          block =
              rooted_word m (first_child_block_of 0) (omega arith)
              ∙ copied_word stack s.mem buf (first_child_block_of 0) read (omega arith)
                  (omega arith)
              ∙ root_inode-first stack;
        };
        current = load32-store32_self _ current_dir_at 0 (omega arith);
      })

  magic_read :
      (stack : Mem) (fs : Fs D)
      → IsFormatted dev stack fs.disk
      → has_magic (dev_read dev fs superblock_sector fs.stack) ≡ true
  unfolding has_magic dev_read magic
  magic_read stack fs f =
      let super = f.super fs.stack in
      rw (super 0 (omega arith), super 1 (omega arith), super 2 (omega arith)) refl

  -- On a reliable device, where the table of mounts has room and an instance of the array is left:
  -- what `fs_format` has written is mounted, at any place and whatever the instance held before, as an
  -- empty file system. All blocks and inodes are free, and the root is a directory without a block of
  -- children, and the current directory.
  pub fs_mount-fs_format :
      IsReliable dev needed_sectors
      → (stack : Mem) (d : D) (point : List ℕ) (v : Vfs D) → length v.mounts < max_mounts
      → v.instance_count < max_mounts
      → (v' : Vfs D) × (fs_mount dev (fs_format dev stack d) point v ≡ some (true, v'))
        × IsEmpty (v'.instances v.instance_count)
  unfolding fs_mount add_mount
  fs_mount-fs_format reliable stack d point v h left =
      let fs : Fs D = record (v.instances v.instance_count) { disk = fs_format dev stack d } in
      let f = fs_format-IsFormatted dev reliable stack d in
      let room : leb max_mounts (length v.mounts) ≡ false = ground arith in
      let inside : leb max_mounts v.instance_count ≡ false = ground arith in
      let self : (v.instance_count == v.instance_count) ≡ true = ground arith in
      (
        add_mount dev point (loaded_fs dev fs) v,
        rw (room, inside, magic_read stack fs f) refl,
        rw self (loaded_fs-IsEmpty stack fs f),
      )
