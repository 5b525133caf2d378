-- ===== src/Block/Edit/Tests.antt =====
-- Runs on one disk that keeps its master boot record.
use calculatoros.Prelude.{
  ◌≡◌, refl, true, none, some, [], ◌∷◌, replicate, length, ◌==◌, if◌then◌else◌, arith, Bool-cases,
  inl, inr,
}
use calculatoros.Block.{
  Mbr, Disks, Blocks, BlockDevice, no_part, no_device, linux_part, mbr_signature,
}
use calculatoros.Block.Edit.{
  with_part, sectors_of, overlaps, overlaps_any, create_mbr_partition, write_created, after_create,
  write_mbr, on_read,
}
use calculatoros.Block.Edit.Register.{IsKeeping, IsCreated, create_mbr_partition-IsCreated}

one_disk : Disks Mbr
one_disk = record {
  read = λ s dev. if length s.parts == 4 then some s else none;
  write = λ s dev mbr. (true, mbr);
}

one_disk-IsKeeping : IsKeeping one_disk
unfolding one_disk
one_disk-IsKeeping = record {
  four = λ s dev mbr e. elim (Bool-cases (length s.parts == 4)) [
    | inl y ↦ ground arith
    | inr n ↦ absurd (ground arith)
  ];
  read-write = λ s dev mbr l w. rw l refl;
}

abbrev empty_mbr : Mbr
empty_mbr = record { bootstrap = []; parts = replicate 4 no_part; signature = mbr_signature }

abbrev sda : BlockDevice
sda = record no_device { name = b's' ∷ b'd' ∷ b'a' ∷ []; present = true }

abbrev blocks : Blocks Mbr
blocks = record { disks = empty_mbr; devices = sda ∷ []; partitions = []; part_devices = [] }

-- The table with one partition of 10 MiB at sector 2048.
abbrev one_part : Mbr
one_part = record empty_mbr { parts = linux_part 2048 20480 ∷ replicate 3 no_part }

-- One that begins inside it is refused.
overlap_run : with_part one_part 2 4096 1 ≡ none
unfolding with_part sectors_of overlaps_any overlaps
overlap_run = refl

create_run : (create_mbr_partition one_disk 0 1 2048 10 blocks).0 ≡ true
unfolding create_mbr_partition write_created after_create write_mbr on_read with_part sectors_of
    overlaps_any overlaps one_disk
create_run = refl

create_mbr_partition-IsCreated_example :
    IsCreated one_disk 0 1 2048 10 (create_mbr_partition one_disk 0 1 2048 10 blocks).1
create_mbr_partition-IsCreated_example =
    create_mbr_partition-IsCreated one_disk one_disk-IsKeeping 0 1 2048 10 blocks create_run
