-- ===== src/Block.antt =====
-- block.c: the devices, and the partitions of their master boot records. What the functions print
-- is left out.
pub mod Edit
use calculatoros.Prelude.{
  ℕ, zero, suc, ◌+◌, ◌-◌, ◌*◌, ◌%◌, ◌^◌, Bool, true, false, not, ◌&&◌, ◌||◌, Option, none, some,
  List, [], ◌∷◌, ◌++◌, length, get_or, set, replicate, ltb, leb, ◌==◌, if◌then◌else◌,
}
use calculatoros.CString.{streq}

abbrev pub mbr_signature : ℕ
mbr_signature = 43605

abbrev pub max_block_devices : ℕ
max_block_devices = 16

-- `mbr_partition_t`; `chs_first` and `chs_last` have three bytes.
pub record MbrPartition : Type 0 where
  pub status : ℕ
  pub chs_first : List ℕ
  pub kind : ℕ
  pub chs_last : List ℕ
  pub lba_start : ℕ
  pub sector_count : ℕ

-- `mbr_t`, with the four entries of its table.
pub record Mbr : Type 0 where
  pub bootstrap : List ℕ
  pub parts : List MbrPartition
  pub signature : ℕ

-- `partition_t`; `parent` is the index of the device in `devices`.
pub record Partition : Type 0 where
  pub name : List ℕ
  pub parent : ℕ
  pub start_lba : ℕ
  pub sector_count : ℕ
  pub present : Bool

-- `block_device_t` of a disk, with the port in `private`, and of a partition, with its index.
pub record BlockDevice : Type 0 where
  pub name : List ℕ
  pub present : Bool
  pub sectors : ℕ
  pub private_data : ℕ

-- The disks behind `dev->read` and `dev->write`, sector 0 only: `none` and `false` are a failure.
pub record Disks (S : Type 0) : Type 0 where
  pub read : S → ℕ → Option Mbr
  pub write : S → ℕ → Mbr → Bool × S

-- The arrays of block.c, each up to its count.
pub record Blocks (S : Type 0) : Type 0 where
  pub disks : S
  pub devices : List BlockDevice
  pub partitions : List Partition
  pub part_devices : List BlockDevice

abbrev pub no_part : MbrPartition
no_part = record {
  status = 0;
  chs_first = replicate 3 0;
  kind = 0;
  chs_last = replicate 3 0;
  lba_start = 0;
  sector_count = 0;
}

abbrev pub no_device : BlockDevice
no_device = record { name = []; present = false; sectors = 0; private_data = 0 }

-- `mbr.parts[i]`
abbrev pub part : Mbr → ℕ → MbrPartition
part mbr i = get_or mbr.parts i no_part

abbrev pub is_used : MbrPartition → Bool
is_used p = not (p.kind == 0)

-- The new entry, and the name of a partition: the device's, and a digit.
abbrev pub linux_part : ℕ → ℕ → MbrPartition
linux_part start size = record no_part { kind = 131; lba_start = start; sector_count = size }

abbrev pub part_name : List ℕ → ℕ → List ℕ
part_name parent part_num = parent ++ ((b'0' + part_num) ∷ [])

-- The sector of the parent that the wrappers of a partition pass on for `lba`.
unfoldable pub part_sector : Partition → ℕ → ℕ
part_sector p lba = (p.start_lba + lba) % 2 ^ 32

-- The first devices: `sda` to at most `sdd`.
unfoldable pub ahci_devices : ℕ → ℕ → List BlockDevice
ahci_devices zero i = []
ahci_devices (suc ports) i =
    let rest = ahci_devices ports (i + 1) in
    if ltb i 4 && ltb i max_block_devices
    then record {
      name = b's' ∷ b'd' ∷ (b'a' + i) ∷ [];
      present = true;
      sectors = 0;
      private_data = i;
    }
      ∷ rest
    else []

unfoldable pub parts_of : Option Mbr → List MbrPartition
parts_of none = []
parts_of (some mbr) = if mbr.signature == mbr_signature then mbr.parts else []

module _ {S : Type 0} where
  unfoldable pub add_partition : ℕ → ℕ → ℕ → ℕ → Blocks S → Blocks S
  add_partition parent part_num start count st =
      let name = part_name (get_or st.devices parent no_device).name part_num in
      record st {
        partitions =
            st.partitions
            ++ (record {
              name = name;
              parent = parent;
              start_lba = start;
              sector_count = count;
              present = true;
            }
                ∷ []);
        part_devices =
            st.part_devices
            ++ (record {
              name = name;
              present = true;
              sectors = count;
              private_data = length st.partitions;
            }
                ∷ []);
      }

  -- The loop over the entries of a table, from the partition number `j` on.
  unfoldable pub add_all : ℕ → ℕ → List MbrPartition → Blocks S → Blocks S
  add_all dev j [] st = st
  add_all dev j (p ∷ ps) st =
      let st' = if is_used p then add_partition dev j p.lba_start p.sector_count st else st in
      add_all dev (j + 1) ps st'

  -- The table, if `read_mbr(dev, &mbr) && mbr.signature == MBR_SIGNATURE`.
  unfoldable pub read_parts : Disks S → ℕ → Blocks S → List MbrPartition
  read_parts disks dev st = parts_of (disks.read st.disks dev)

  -- The loop of `block_init` and of `update_partitions_and_dev` over `count` devices from `i` on.
  unfoldable pub scan : Disks S → ℕ → ℕ → Blocks S → Blocks S
  scan disks zero i st = st
  scan disks (suc count) i st = scan disks count (i + 1) (add_all i 1 (read_parts disks i st) st)

  -- `block_init`, where the controller has `ports` ports.
  unfoldable pub block_init : Disks S → ℕ → Blocks S → Blocks S
  block_init disks ports st =
      let devices = ahci_devices ports 0 in
      scan disks (length devices) 0 (record st { devices = devices })

  -- `update_partitions_and_dev`: the partitions are listed anew.
  unfoldable pub update_partitions : Disks S → Blocks S → Blocks S
  update_partitions disks st =
      scan disks (length st.devices) 0 (record st { partitions = []; part_devices = [] })

-- What `block_find` returns: a pointer into `devices` or into `part_devices`.
pub data Found : Type 0 where
  device : ℕ → Found
  partition : ℕ → Found

unfoldable pub find_device : List ℕ → ℕ → List BlockDevice → Option ℕ
find_device name i [] = none
find_device name i (d ∷ ds) =
    let rest = find_device name (i + 1) ds in if streq d.name name then some i else rest

-- `partition_find`, from the index `i` on.
unfoldable pub find_partition : List ℕ → ℕ → List Partition → Option ℕ
find_partition name i [] = none
find_partition name i (p ∷ ps) =
    let rest = find_partition name (i + 1) ps in if streq p.name name then some i else rest

unfoldable pub block_find : {S : Type 0} → List ℕ → Blocks S → Option Found
block_find name st = elim (find_device name 0 st.devices) [
  | some i ↦ some (device i)
  | none ↦ elim (find_partition name 0 st.partitions) [ some i ↦ some (partition i) | none ↦ none ]
]
