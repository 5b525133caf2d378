-- ===== src/Fs/Dir.antt =====
-- Directories of fs.c: a block of 128 inode numbers, -1 where a slot is free.
pub mod Slots
pub mod Children
pub mod First
mod Tests
use calculatoros.Prelude.{
  ℕ, zero, suc, ◌+◌, ◌*◌, Bool, true, false, not, ◌||◌, Option, none, some, List, [], ◌∷◌, ◌==◌,
  ltb, leb, if◌then◌else◌,
}
use calculatoros.Memory.{Mem}
use calculatoros.Memory.Words.{load32, store32}
use calculatoros.Fs.Layout.{
  data_start, total_blocks, minus_one, type_dir, type_of, first_child_block_of, dirty_at,
}
use calculatoros.Fs.Device.{Device}
use calculatoros.Fs.State.{Fs, sector, valid_inode, dev_read, dev_write}
use calculatoros.Fs.Bitmaps.{alloc_block}
use calculatoros.Fs.Inode.{load_inode, save_inode}

-- `buf[i]` of a `uint32_t buf[128]`.
abbrev pub slot : Mem → ℕ → ℕ
slot buf i = load32 buf (4 * i)

abbrev pub set_slot : Mem → ℕ → ℕ → Mem
set_slot buf i v = store32 buf (4 * i) v

-- The first slot from `i` on that holds `v`, of the `left` that follow: the loops of
-- `dir_add_child`, with -1, and of `dir_remove_child`, with the child.
unfoldable pub find_slot : ℕ → ℕ → ℕ → Mem → Option ℕ
find_slot v zero i buf = none
find_slot v (suc left) i buf =
    let rest = find_slot v left (i + 1) buf in if slot buf i == v then some i else rest

-- The loop of `get_children`, with `count` numbers put out.
unfoldable pub collect : ℕ → ℕ → ℕ → Mem → List ℕ
collect zero i count buf = []
collect (suc left) i count buf =
    let skip = collect left (i + 1) count buf in
    let take = slot buf i ∷ collect left (i + 1) (count + 1) buf in
    if slot buf i == minus_one
    then skip
    else if not (valid_inode (slot buf i))
    then skip
    else if leb 128 count
    then []
    else take

-- `for (i = 0; i < 128; i++) buf[i] = -1; buf[0] = child;` on an uninitialised buffer.
unfoldable pub fresh_slots : ℕ → Mem → Mem
fresh_slots child stack = set_slot (λ a. if ltb a 512 then 255 else stack a) 0 child

-- The loop of `dir_remove_child`: the first slot that holds the child is set to -1.
unfoldable pub without_child : ℕ → Mem → Mem
without_child child buf = elim (find_slot child 128 0 buf) [
  | none ↦ buf
  | some i ↦ set_slot buf i minus_one
]

module _ {D : Type 0} (dev : Device D) where
  unfoldable pub mark_and_save : ℕ → Fs D → Fs D
  mark_and_save i fs = save_inode dev i (record fs { mem = store32 fs.mem (dirty_at i) 1 })

  -- What follows `alloc_block` where the directory has no block yet.
  unfoldable pub place_first : ℕ → ℕ → Option ℕ × Fs D → Bool × Fs D
  place_first parent child (none, fs) = (false, fs)
  place_first parent child (some nb, fs) = (
    true,
    mark_and_save parent (
        dev_write dev (record fs { mem = store32 fs.mem (first_child_block_of parent) nb })
          (sector data_start nb) (fresh_slots child fs.stack)),
  )

  unfoldable pub add_first : ℕ → ℕ → Fs D → Bool × Fs D
  unfolding place_first
  add_first parent child fs = place_first parent child (alloc_block dev fs)

  -- The directory has the block `b`.
  unfoldable pub add_to_block : ℕ → ℕ → ℕ → Fs D → Bool × Fs D
  add_to_block b parent child fs =
      let buf = dev_read dev fs (sector data_start b) fs.stack in
      elim (find_slot minus_one 128 0 buf) [
        | none ↦ (false, fs)
        | some i ↦ (
          true,
          mark_and_save parent (dev_write dev fs (sector data_start b) (set_slot buf i child)),
        )
      ]

  unfoldable pub dir_add_child : ℕ → ℕ → Fs D → Bool × Fs D
  dir_add_child parent child fs =
      let fs' = load_inode dev parent fs in
      let b = load32 fs'.mem (first_child_block_of parent) in
      if b == minus_one then add_first parent child fs' else add_to_block b parent child fs'

  unfoldable pub get_children : ℕ → Fs D → List ℕ × Fs D
  get_children parent fs =
      let fs' = load_inode dev parent fs in
      let b = load32 fs'.mem (first_child_block_of parent) in
      if not (load32 fs'.mem (type_of parent) == type_dir)
      then ([], fs')
      else if b == minus_one
      then ([], fs')
      else if leb total_blocks b
      then ([], fs')
      else (collect 128 0 0 (dev_read dev fs' (sector data_start b) fs'.stack), fs')

  -- The block is written back whether or not the child is there.
  unfoldable pub dir_remove_child : ℕ → ℕ → Fs D → Fs D
  dir_remove_child parent child fs =
      let fs' = load_inode dev parent fs in
      let b = load32 fs'.mem (first_child_block_of parent) in
      if b == minus_one
      then fs'
      else dev_write dev fs' (sector data_start b)
          (without_child child (dev_read dev fs' (sector data_start b) fs'.stack))
