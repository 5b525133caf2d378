-- ===== src/Fs/Runs.antt =====
-- A small file system in memory, on which the theorems are tried.
use calculatoros.Prelude.{ℕ, arith}
use calculatoros.Memory.{Mem}
use calculatoros.Memory.Words.{store32}
use calculatoros.Fs.Layout.{loaded_at, type_of, first_child_block_of}
use calculatoros.Fs.Device.{IsReliable}
use calculatoros.Fs.Device.Ram.{ram_device, ram_device-IsReliable}
use calculatoros.Fs.State.{Fs}
use calculatoros.Fs.Sectors.{needed_sectors}

-- The RAM disk is large enough.
pub ram-IsReliable : IsReliable ram_device needed_sectors
ram-IsReliable =
    let r = ram_device-IsReliable in
    record {
      read-write_self = λ d lba b buf i h k. r.read-write_self d lba b buf i (omega arith) k;
      read-write_ne = λ d lba other b buf i h h' ne k.
          r.read-write_ne d lba other b buf i (omega arith) (omega arith) ne k;
      read_fills = λ d lba buf buf' i h k. r.read_fills d lba buf buf' i (omega arith) k;
    }

abbrev pub zeros : Mem
zeros a = 0

-- A disk and a memory of zeros.
abbrev pub blank : Fs Mem
blank = record { mem = zeros; disk = zeros; stack = zeros }

-- Inode 0 is loaded, a directory with the block `b`.
abbrev pub root_mem : ℕ → Mem
root_mem b =
    store32 (store32 (store32 zeros (loaded_at 0) 1) (type_of 0) 1) (first_child_block_of 0) b

abbrev pub with_root : ℕ → Fs Mem
with_root b = record blank { mem = root_mem b }
