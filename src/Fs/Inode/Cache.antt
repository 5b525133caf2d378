-- ===== src/Fs/Inode/Cache.antt =====
-- What loading and saving an inode do to the cache and to the disk.
use calculatoros.Prelude.{
  ℕ, ◌+◌, ◌<◌, ◌≤◌, ◌≡◌, ◌≢◌, ap, ◌∙◌, ◌⊎◌, inl, inr, true, false, not, ◌||◌, Bool-cases, arith,
}
use calculatoros.Memory.{Mem, memcpy, from}
use calculatoros.Memory.Words.{load32, store32, store32_ne, load32-store32_self, load32-store32_ne}
use calculatoros.Memory.Copy.{memcpy_inside, memcpy_outside}
use calculatoros.Fs.Layout.{inode_size, inode_at, loaded_at, dirty_at, max_inodes, sizeof_inode}
use calculatoros.Fs.Device.{Device, IsReliable}
use calculatoros.Fs.State.{Fs, valid_inode, dev_read, dev_write}
use calculatoros.Fs.Sectors.{
  needed_sectors, Holds, SameSector, dev_read-dev_write_self, dev_read-dev_write_ne,
}
use calculatoros.Fs.Inode.{inode_sector, inode_offset, is_loaded, is_dirty, load_inode, save_inode}

module _ {D : Type 0} (dev : Device D) where
  -- A load takes place: the number is valid, and the entry is not marked as loaded.
  load_inode_fresh :
      (i : ℕ) (fs : Fs D)
      → i < max_inodes
      → is_loaded fs.mem i ≡ false
      → load_inode dev i fs ≡ record fs {
        mem =
            store32
              (store32
                (memcpy fs.mem
                  (inode_at i)
                  (from (dev_read dev fs (inode_sector i) fs.stack) (inode_offset i))
                  inode_size)
                (loaded_at i)
                1)
              (dirty_at i)
              0;
      }
  unfolding load_inode valid_inode
  load_inode_fresh i fs h fresh = ground arith

  -- A byte of the cache that a first load fills.
  pub load_inode_byte :
      (i : ℕ) (fs : Fs D) (k : ℕ)
      → i < max_inodes
      → is_loaded fs.mem i ≡ false
      → k < 512
      → inode_at i + k < loaded_at 0
      → (load_inode dev i fs).mem (inode_at i + k) ≡ dev_read dev fs (inode_sector i) fs.stack k
  load_inode_byte i fs k h fresh hk below =
      let buf = dev_read dev fs (inode_sector i) fs.stack in
      let copied = memcpy fs.mem (inode_at i) (from buf (inode_offset i)) inode_size in
      let marked = store32 copied (loaded_at i) 1 in
      rw (load_inode_fresh i fs h fresh) (
        store32_ne marked (dirty_at i) 0 (inode_at i + k) (inl (omega arith))
        ∙ store32_ne copied (loaded_at i) 1 (inode_at i + k) (inl (omega arith))
        ∙ memcpy_inside fs.mem (inode_at i) (from buf (inode_offset i)) 512 k hk
        ∙ (let e : inode_offset i + k ≡ k = omega arith in ap buf e))

  -- Loading inode `i` for the first time fills 512 bytes of the cache with its sector: the 364 of
  -- its own entry, and the first 148 of the next one, whatever that holds. The entry counts as
  -- loaded and clean, and no byte of the cache outside these 512 changes.
  pub load_inode_overruns :
      (i : ℕ) (fs : Fs D)
      → i + 1 < max_inodes
      → is_loaded fs.mem i ≡ false
      → let m' = (load_inode dev i fs).mem in
        ((k : ℕ) → k < 512 → m' (inode_at i + k) ≡ dev_read dev fs (inode_sector i) fs.stack k)
        × (is_loaded m' i ≡ true)
        × (is_dirty m' i ≡ false)
        × ((a : ℕ) → (a < inode_at i) ⊎ (inode_at i + 512 ≤ a) → a < loaded_at 0 → m' a ≡ fs.mem a)
  load_inode_overruns i fs h fresh =
      let buf = dev_read dev fs (inode_sector i) fs.stack in
      let copied = memcpy fs.mem (inode_at i) (from buf (inode_offset i)) inode_size in
      let marked = store32 copied (loaded_at i) 1 in
      (
        λ k hk. load_inode_byte i fs k (omega arith) fresh hk (omega arith),
        rw (
          load_inode_fresh i fs (omega arith) fresh,
          load32-store32_ne marked (dirty_at i) 0 (loaded_at i) (inl (omega arith)),
          load32-store32_self copied (loaded_at i) 1 (omega arith),
        ),
        rw (
          load_inode_fresh i fs (omega arith) fresh,
          load32-store32_self marked (dirty_at i) 0 (omega arith),
        ),
        λ a out below. rw (load_inode_fresh i fs (omega arith) fresh) (
            store32_ne marked (dirty_at i) 0 a (inl (omega arith))
            ∙ store32_ne copied (loaded_at i) 1 a (inl (omega arith))
            ∙ memcpy_outside fs.mem (inode_at i) (from buf (inode_offset i)) 512 a out),
      )

  pub load_inode_loaded : (i : ℕ) (fs : Fs D) → is_loaded fs.mem i ≡ true → load_inode dev i fs ≡ fs
  unfolding load_inode valid_inode
  load_inode_loaded i fs h = ground arith

  -- Saving changes no word below the dirty flags.
  pub load32-save_inode :
      (i : ℕ) (fs : Fs D) (a : ℕ)
      → a + 4 ≤ dirty_at 0
      → load32 (save_inode dev i fs).mem a ≡ load32 fs.mem a
  unfolding save_inode
  load32-save_inode i fs a h = elim (Bool-cases (not (valid_inode i) || not (is_dirty fs.mem i))) [
    | inl skip ↦ rw (skip, save_inode)
    | inr go ↦ rw (go, save_inode) (load32-store32_ne fs.mem (dirty_at i) 0 a (inl (omega arith)))
  ]

  save_inode_dirty :
      (i : ℕ) (fs : Fs D)
      → i < max_inodes
      → is_dirty fs.mem i ≡ true
      → save_inode dev i fs
        ≡ record (dev_write dev fs (inode_sector i) (
            memcpy
              (dev_read dev fs (inode_sector i) fs.stack)
              (inode_offset i)
              (from fs.mem (inode_at i))
              inode_size)) { mem = store32 fs.mem (dirty_at i) 0 }
  unfolding save_inode valid_inode
  save_inode_dirty i fs h dirty = ground arith

module _ {D : Type 0} (dev : Device D) (r : IsReliable dev needed_sectors) where
  -- Saving a dirty inode writes its sector alone: the 512 bytes from the start of its entry.
  save_inode_sector :
      (i : ℕ) (fs : Fs D)
      → i < max_inodes
      → is_dirty fs.mem i ≡ true
      → Holds dev (save_inode dev i fs) (inode_sector i) (from fs.mem (inode_at i))
  unfolding dev_read dev_write
  save_inode_sector i fs h dirty buf k hk =
      let old = dev_read dev fs (inode_sector i) fs.stack in
      let copied = memcpy old (inode_offset i) (from fs.mem (inode_at i)) inode_size in
      rw (save_inode_dirty dev i fs h dirty) (
        dev_read-dev_write_self dev r fs (inode_sector i) copied (omega arith) buf k hk
        ∙ (let e : k ≡ inode_offset i + k = omega arith in ap copied e)
        ∙ memcpy_inside old (inode_offset i) (from fs.mem (inode_at i)) 512 k hk)

  -- What is saved is loaded again: after a dirty inode is saved, loading it into any memory that
  -- does not have it yet gives the 364 bytes of its entry.
  pub load_inode-save_inode :
      (i : ℕ) (fs : Fs D) (m : Mem) (k : ℕ)
      → i < max_inodes
      → is_dirty fs.mem i ≡ true
      → is_loaded m i ≡ false
      → k < sizeof_inode
      → (load_inode dev i (record (save_inode dev i fs) { mem = m })).mem (inode_at i + k)
        ≡ fs.mem (inode_at i + k)
  unfolding dev_read
  load_inode-save_inode i fs m k h dirty fresh hk =
      let saved = save_inode dev i fs in
      load_inode_byte dev i (record saved { mem = m }) k h fresh (omega arith) (omega arith)
      ∙ save_inode_sector i fs h dirty saved.stack k (omega arith)

  pub save_inode_elsewhere :
      (i : ℕ) (fs : Fs D) (lba : ℕ)
      → lba < needed_sectors
      → lba ≢ inode_sector i
      → SameSector dev fs (save_inode dev i fs) lba
  unfolding save_inode dev_read dev_write valid_inode
  save_inode_elsewhere i fs lba h ne buf k hk =
      let copied =
        memcpy (dev_read dev fs (inode_sector i) fs.stack) (inode_offset i)
          (from fs.mem (inode_at i)) inode_size in
      elim (Bool-cases (not (valid_inode i) || not (is_dirty fs.mem i))) [
        | inl skip ↦ rw (skip, save_inode)
        | inr go ↦
            rw (go, save_inode)
              (dev_read-dev_write_ne dev r fs (inode_sector i) lba copied (ground (arith, go)) h
                (ground arith) buf k hk)
      ]
