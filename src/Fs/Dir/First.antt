-- ===== src/Fs/Dir/First.antt =====
-- The first child of a directory of fs.c, which gets its block then.
use calculatoros.Prelude.{
  ℕ, ◌<◌, ◌≤◌, ◌≡◌, sym, subst, ◌∙◌, inl, inr, Bool, true, false, Option, none, some, [], ◌∷◌,
  arith,
}
use calculatoros.Memory.{Mem}
use calculatoros.Memory.Words.{load32, store32, load32-store32_self, load32-store32_ne}
use calculatoros.Fs.Layout.{
  minus_one, max_inodes, total_blocks, type_of, first_child_block_of, loaded_at,
}
use calculatoros.Fs.Device.{Device, IsReliable}
use calculatoros.Fs.State.{Fs}
use calculatoros.Fs.Sectors.{needed_sectors}
use calculatoros.Fs.Inode.Cache.{load_inode_loaded}
use calculatoros.Fs.Dir.{fresh_slots, add_first, place_first, dir_add_child, get_children}
use calculatoros.Bitmap
use calculatoros.Fs.Layout.{block_bitmap_at}
use calculatoros.Fs.Bitmaps.{alloc_block}
use calculatoros.Fs.Bitmaps.Saved.{Allocated}
use calculatoros.Fs.Bitmaps.Alloc.{alloc_block-Allocated}
use calculatoros.Fs.Dir.Slots.{collect-fresh_slots}
use calculatoros.Fs.Dir.Children.{IsDir, children_of_written}

-- A bit of the block bitmap is set: the inode cache is not touched.
load32-set :
    (m : Mem) (n a : ℕ)
    → n < total_blocks
    → 516 ≤ a
    → load32 (Bitmap.set block_bitmap_at m n) a ≡ load32 m a
unfolding load32 Bitmap.set
load32-set m n a h le = ground arith

IsDir-set :
    {m : Mem} {i b : ℕ} (n : ℕ)
    → n < total_blocks
    → IsDir m i b
    → IsDir (Bitmap.set block_bitmap_at m n) i b
IsDir-set {m} {i} n h d = record {
  valid = d.valid;
  loaded = rw (load32-set m n (loaded_at i) h (omega arith)) d.loaded;
  dir = load32-set m n (type_of i) h (omega arith) ∙ d.dir;
  block = load32-set m n (first_child_block_of i) h (omega arith) ∙ d.block;
}

-- The directory gets its block.
IsDir-store32 :
    {m : Mem} {i b : ℕ} (n : ℕ)
    → n < total_blocks
    → IsDir m i b
    → IsDir (store32 m (first_child_block_of i) n) i n
IsDir-store32 {m} {i} n h d =
    let v = d.valid in
    record {
      valid = d.valid;
      loaded =
          rw (load32-store32_ne m (first_child_block_of i) n (loaded_at i) (inr (omega arith)))
            d.loaded;
      dir = load32-store32_ne m (first_child_block_of i) n (type_of i) (inl (omega arith)) ∙ d.dir;
      block = load32-store32_self m (first_child_block_of i) n (omega arith);
    }

module _ {D : Type 0} (dev : Device D) (r : IsReliable dev needed_sectors) where
  -- What `dir_add_child` does to a directory that has no block yet.
  abbrev pub AddsFirst : Fs D → ℕ → ℕ → Bool × Fs D → Type 0
  AddsFirst fs parent child (true, fs') = (get_children dev parent fs').0 ≡ child ∷ []
  AddsFirst fs parent child (false, fs') = fs' ≡ fs

  place_first-AddsFirst :
      (fs : Fs D) (parent child : ℕ) (o : Option ℕ × Fs D)
      → IsDir fs.mem parent minus_one
      → child < max_inodes
      → Allocated dev block_bitmap_at 0 total_blocks fs o
      → AddsFirst fs parent child (place_first dev parent child o)
  unfolding place_first
  place_first-AddsFirst fs parent child (none, fs') d c a = a.0
  place_first-AddsFirst fs parent child (some nb, fs') d c
        (ge, lt, clear, before, mem, saved, same) =
      let placed : Fs D = record fs' { mem = store32 fs'.mem (first_child_block_of parent) nb } in
      let d' : IsDir fs'.mem parent minus_one =
        subst (λ m. IsDir m parent minus_one) (sym mem) (IsDir-set nb lt d) in
      children_of_written dev r placed parent nb (fresh_slots child fs'.stack)
        (IsDir-store32 nb lt d') lt
      ∙ collect-fresh_slots fs'.stack child c

  -- For a directory that has no block: `dir_add_child` gives it one that lists the child alone, or
  -- fails, where all 4096 blocks are taken, and changes nothing.
  pub dir_add_child-AddsFirst :
      (fs : Fs D) (parent child : ℕ)
      → IsDir fs.mem parent minus_one
      → child < max_inodes
      → AddsFirst fs parent child (dir_add_child dev parent child fs)
  unfolding dir_add_child add_first
  dir_add_child-AddsFirst fs parent child d c =
      rw (load_inode_loaded dev parent fs d.loaded, d.block)
        (place_first-AddsFirst fs parent child (alloc_block dev fs) d c
          (alloc_block-Allocated dev r fs))
