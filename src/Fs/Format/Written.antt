-- ===== src/Fs/Format/Written.antt =====
-- What `fs_format` leaves on a reliable device.
use calculatoros.Prelude.{ℕ, zero, suc, ◌+◌, ◌<◌, ◌≤◌, ◌≡◌, ◌∙◌, ◌⊎◌, refl, inl, inr, arith}
use calculatoros.Memory.{Mem}
use calculatoros.Fs.Layout.{
  superblock_sector, inode_start, block_bitmap_start, inode_bitmap_start, max_inodes,
}
use calculatoros.Fs.Device.{Device, IsReliable}
use calculatoros.Fs.Sectors.{needed_sectors}
use calculatoros.Fs.Format.{magic, root_sector, zero_sector, zero_sectors, cleared, fs_format}

module _ {D : Type 0} (dev : Device D) where
  -- The 512 bytes of a sector of the device.
  abbrev pub Contains : D → ℕ → Mem → Type 0
  Contains d lba b = (buf : Mem) (k : ℕ) → k < 512 → dev.read d lba buf k ≡ b k

  abbrev pub Keeps : D → D → ℕ → Type 0
  Keeps d d' lba = (buf : Mem) (k : ℕ) → k < 512 → dev.read d' lba buf k ≡ dev.read d lba buf k

  -- The superblock has the letters, the first inode is the root, the other inodes and both bitmaps
  -- are zeros.
  pub record IsFormatted (stack : Mem) (d : D) : Type 0 where
    pub super : Contains d superblock_sector magic
    pub root : Contains d inode_start (root_sector stack)
    pub table : (i : ℕ) → 0 < i → i < max_inodes → Contains d (inode_start + i) zero_sector
    pub blocks : Contains d block_bitmap_start zero_sector
    pub inodes : Contains d inode_bitmap_start zero_sector

module _ {D : Type 0} (dev : Device D) (r : IsReliable dev needed_sectors) where
  pub zero_sectors-Keeps :
      (left start : ℕ) (d : D) (lba : ℕ)
      → start + left ≤ needed_sectors
      → lba < needed_sectors
      → (lba < start) ⊎ (start + left ≤ lba)
      → Keeps dev d (zero_sectors dev left start d) lba
  unfolding zero_sectors
  zero_sectors-Keeps zero start d lba h k o buf j l = refl
  zero_sectors-Keeps (suc left) start d lba h k o buf j l =
      let rest =
        zero_sectors-Keeps left (start + 1) (dev.write d start zero_sector) lba (omega arith) k
          (ground arith) buf j l in
      rest ∙ r.read-write_ne d start lba zero_sector buf j (omega arith) k (ground arith) l

  pub zero_sectors-Contains :
      (left start : ℕ) (d : D) (i : ℕ)
      → start + left ≤ needed_sectors
      → i < left
      → Contains dev (zero_sectors dev left start d) (start + i) zero_sector
  unfolding zero_sectors
  zero_sectors-Contains zero start d i h k buf j l = elim k [ ]
  zero_sectors-Contains (suc left) start d zero h k buf j l =
      let e : start + 0 ≡ start = omega arith in
      let kept =
        zero_sectors-Keeps left (start + 1) (dev.write d start zero_sector) start (omega arith)
          (omega arith) (inl (omega arith)) buf j l in
      rw e (kept ∙ r.read-write_self d start zero_sector buf j (omega arith) l)
  zero_sectors-Contains (suc left) start d (suc i) h k buf j l =
      let e : start + suc i ≡ start + 1 + i = omega arith in
      rw e (
        zero_sectors-Contains left (start + 1) (dev.write d start zero_sector) i (omega arith)
          (omega arith) buf j l)

  -- The sectors of the bitmaps and the inodes are zeros.
  cleared-blocks : (d : D) → Contains dev (cleared dev d) block_bitmap_start zero_sector
  unfolding cleared
  cleared-blocks d buf k h =
      let empty = dev.write d superblock_sector zero_sector in
      let free = zero_sectors dev 1 inode_bitmap_start empty in
      let both = zero_sectors dev 1 block_bitmap_start free in
      zero_sectors-Keeps max_inodes inode_start both 257 (omega arith) (omega arith)
        (inr (omega arith)) buf k h
      ∙ zero_sectors-Contains 1 block_bitmap_start free 0 (omega arith) (omega arith) buf k h

  cleared-inodes : (d : D) → Contains dev (cleared dev d) inode_bitmap_start zero_sector
  unfolding cleared
  cleared-inodes d buf k h =
      let empty = dev.write d superblock_sector zero_sector in
      let free = zero_sectors dev 1 inode_bitmap_start empty in
      let both = zero_sectors dev 1 block_bitmap_start free in
      zero_sectors-Keeps max_inodes inode_start both 258 (omega arith) (omega arith)
        (inr (omega arith)) buf k h
      ∙ zero_sectors-Keeps 1 block_bitmap_start free 258 (omega arith) (omega arith)
          (inr (omega arith)) buf k h
      ∙ zero_sectors-Contains 1 inode_bitmap_start empty 0 (omega arith) (omega arith) buf k h

  cleared-table :
      (d : D) (i : ℕ) → i < max_inodes → Contains dev (cleared dev d) (inode_start + i) zero_sector
  unfolding cleared
  cleared-table d i h =
      zero_sectors-Contains max_inodes inode_start
        (zero_sectors dev 1 block_bitmap_start
          (zero_sectors dev 1 inode_bitmap_start (dev.write d superblock_sector zero_sector)))
        i (omega arith) h

  -- The two sectors that `fs_format` writes last leave the others as they were.
  fs_format-Keeps :
      (stack : Mem) (d : D) (lba : ℕ)
      → lba < needed_sectors
      → inode_start < lba
      → Keeps dev (cleared dev d) (fs_format dev stack d) lba
  unfolding fs_format
  fs_format-Keeps stack d lba h k buf j l =
      r.read-write_ne (dev.write (cleared dev d) inode_start (root_sector stack)) superblock_sector
        lba magic buf j (omega arith) h (omega arith) l
      ∙ r.read-write_ne (cleared dev d) inode_start lba (root_sector stack) buf j (omega arith) h
          (omega arith) l

  pub fs_format-IsFormatted : (stack : Mem) (d : D) → IsFormatted dev stack (fs_format dev stack d)
  unfolding fs_format
  fs_format-IsFormatted stack d =
      let rooted = dev.write (cleared dev d) inode_start (root_sector stack) in
      record {
        super = λ buf k h. r.read-write_self rooted superblock_sector magic buf k (omega arith) h;
        root = λ buf k h.
            r.read-write_ne rooted superblock_sector inode_start magic buf k (omega arith)
              (omega arith) (omega arith) h
            ∙ r.read-write_self (cleared dev d) inode_start (root_sector stack) buf k (omega arith)
                h;
        table = λ i p h buf k l.
            fs_format-Keeps stack d (inode_start + i) (omega arith) (omega arith) buf k l
            ∙ cleared-table d i h buf k l;
        blocks = λ buf k h.
            fs_format-Keeps stack d block_bitmap_start (omega arith) (omega arith) buf k h
            ∙ cleared-blocks d buf k h;
        inodes = λ buf k h.
            fs_format-Keeps stack d inode_bitmap_start (omega arith) (omega arith) buf k h
            ∙ cleared-inodes d buf k h;
      }
