-- ===== src/Block/Edit.antt =====
-- Creating and deleting the partitions of a disk: `create_mbr_partition` and `delete_mbr_partition`
-- of block.c. A result `false` is 0.
pub mod Disjoint
pub mod Register
mod Tests
use calculatoros.Prelude.{
  ℕ, zero, suc, ◌+◌, ◌-◌, ◌*◌, ◌%◌, ◌^◌, Bool, true, false, not, ◌&&◌, ◌||◌, Option, none, some,
  List, [], ◌∷◌, set, ltb, leb, ◌==◌, if◌then◌else◌,
}
use calculatoros.Block.{
  mbr_signature, MbrPartition, Mbr, Partition, Disks, Blocks, no_part, part, is_used, linux_part,
  add_partition, read_parts, update_partitions,
}

-- The test of one used entry against the sectors from `start` on, in `uint32_t`.
unfoldable pub overlaps : ℕ → ℕ → MbrPartition → Bool
overlaps start size p =
    let part_start = p.lba_start in
    let part_end = (p.lba_start + p.sector_count) % 2 ^ 32 in
    let new_end = (start + size) % 2 ^ 32 in
    is_used p
    && ((leb part_start start && ltb start part_end)
        || ((ltb part_start new_end && leb new_end part_end)
            || (leb start part_start && leb part_end new_end)))

unfoldable pub overlaps_any : ℕ → ℕ → List MbrPartition → Bool
overlaps_any start size [] = false
overlaps_any start size (p ∷ ps) = overlaps start size p || overlaps_any start size ps

-- The sectors of `size_mb` MiB, in `uint32_t`.
unfoldable pub sectors_of : ℕ → ℕ
sectors_of size_mb = size_mb * 2048 % 2 ^ 32

-- The record that `create_mbr_partition` writes, or `none` where the entry is used or the new
-- partition overlaps another.
unfoldable pub with_part : Mbr → ℕ → ℕ → ℕ → Option Mbr
with_part mbr part_num start size_mb =
    if is_used (part mbr (part_num - 1))
    then none
    else if overlaps_any start (sectors_of size_mb) mbr.parts
    then none
    else some (record mbr {
      parts = set mbr.parts (part_num - 1) (linux_part start (sectors_of size_mb));
      signature = mbr_signature;
    })

-- The record that `delete_mbr_partition` writes, or `none` where there is no such partition.
unfoldable pub without_part : Mbr → ℕ → Option Mbr
without_part mbr part_num =
    if (part mbr (part_num - 1)).kind == 0
    then none
    else some (record mbr { parts = set mbr.parts (part_num - 1) no_part })

-- The new record, once the old one is read.
unfoldable pub on_read : (Mbr → Option Mbr) → Option Mbr → Option Mbr
on_read f none = none
on_read f (some mbr) = f mbr

-- A partition of the device that starts there is known.
unfoldable pub is_known : ℕ → ℕ → List Partition → Bool
is_known dev start [] = false
is_known dev start (p ∷ ps) = (p.parent == dev && p.start_lba == start) || is_known dev start ps

module _ {S : Type 0} where
  -- The loop at the end of `create_mbr_partition`: partitions not yet known are added.
  unfoldable pub add_unknown : ℕ → ℕ → List MbrPartition → Blocks S → Blocks S
  add_unknown dev j [] st = st
  add_unknown dev j (p ∷ ps) st =
      let st' =
        if is_used p && not (is_known dev p.lba_start st.partitions)
        then add_partition dev j p.lba_start p.sector_count st
        else st in
      add_unknown dev (j + 1) ps st'

  -- What follows the write: `false` is its failure.
  unfoldable pub after_create : Disks S → ℕ → Bool × Blocks S → Bool × Blocks S
  after_create disks dev (false, st) = (false, st)
  after_create disks dev (true, st) = (true, add_unknown dev 1 (read_parts disks dev st) st)

  unfoldable pub after_delete : Disks S → Bool × Blocks S → Bool × Blocks S
  after_delete disks (false, st) = (false, st)
  after_delete disks (true, st) = (true, update_partitions disks st)

  unfoldable pub write_mbr : Disks S → ℕ → Mbr → Blocks S → Bool × Blocks S
  write_mbr disks dev mbr st =
      let written = disks.write st.disks dev mbr in (written.0, record st { disks = written.1 })

  -- What follows the read and the checks: `none` is a failed read or a refused partition.
  unfoldable pub write_created : Disks S → ℕ → Option Mbr → Blocks S → Bool × Blocks S
  write_created disks dev none st = (false, st)
  write_created disks dev (some mbr) st = after_create disks dev (write_mbr disks dev mbr st)

  unfoldable pub write_deleted : Disks S → ℕ → Option Mbr → Blocks S → Bool × Blocks S
  write_deleted disks dev none st = (false, st)
  write_deleted disks dev (some mbr) st = after_delete disks (write_mbr disks dev mbr st)

  unfoldable pub create_mbr_partition : Disks S → ℕ → ℕ → ℕ → ℕ → Blocks S → Bool × Blocks S
  create_mbr_partition disks dev part_num start size_mb st =
      if ltb part_num 1 || ltb 4 part_num
      then (false, st)
      else write_created disks dev
          (on_read (λ mbr. with_part mbr part_num start size_mb) (disks.read st.disks dev)) st

  unfoldable pub delete_mbr_partition : Disks S → ℕ → ℕ → Blocks S → Bool × Blocks S
  delete_mbr_partition disks dev part_num st =
      if ltb part_num 1 || ltb 4 part_num
      then (false, st)
      else write_deleted disks dev
          (on_read (λ mbr. without_part mbr part_num) (disks.read st.disks dev)) st
