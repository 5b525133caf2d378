-- ===== src/Fs/Device/Ram.antt =====
-- The RAM disk of fs.c, which stands in for a device where no disk is found.
use calculatoros.Prelude.{ℕ, ◌+◌, ◌*◌, ◌%◌, ◌^◌, arith, ltb, if◌then◌else◌}
use calculatoros.Memory.{Mem, memcpy, from}
use calculatoros.Fs.Device.{Device, IsReliable}

-- `sizeof(ram_disk)`, 32 MB.
abbrev pub ram_size : ℕ
ram_size = 33554432

-- `ram_read` and `ram_write` with a count of 1, in `uint32_t` arithmetic.
unfoldable pub ram_read : Mem → ℕ → Mem → Mem
ram_read ram lba buf =
    let offset = lba * 512 % 2 ^ 32 in
    if ltb ram_size ((offset + 512) % 2 ^ 32) then buf else memcpy buf 0 (from ram offset) 512

unfoldable pub ram_write : Mem → ℕ → Mem → Mem
ram_write ram lba buf =
    let offset = lba * 512 % 2 ^ 32 in
    if ltb ram_size ((offset + 512) % 2 ^ 32) then ram else memcpy ram offset buf 512

abbrev pub ram_device : Device Mem
ram_device = record { read = ram_read; write = ram_write }

-- The RAM disk keeps what is written to each of its 65536 sectors, and a write to one of them
-- changes no other.
pub ram_device-IsReliable : IsReliable ram_device 65536
unfolding ram_read ram_write
ram_device-IsReliable = record {
  read-write_self = λ d lba b buf i h k. ground arith;
  read-write_ne = λ d lba other b buf i h h' ne k. ground arith;
  read_fills = λ d lba buf buf' i h k. ground arith;
}
