-- ===== src/Acpi.antt =====
-- acpi.c: the search for the tables of the firmware, `checksum`, `find_rsdp` and `acpi_find_table`.
-- A physical address is an address of the memory; addresses are `uint32_t`.
pub mod Bytes
pub mod Pointer
pub mod Found
mod Tests
use calculatoros.Prelude.{
  ℕ, zero, suc, ◌+◌, ◌-◌, ◌*◌, ◌/◌, ◌%◌, ◌^◌, Bool, true, false, not, ◌&&◌, Option, none, some,
  List, [], ◌∷◌, ◌==◌, if◌then◌else◌,
}
use calculatoros.CString.{ascii}
use calculatoros.Memory.{Mem, from}
use calculatoros.Memory.Words.{load32}

-- The sum in a `uint8_t`.
unfoldable pub sum_of : ℕ → ℕ → Mem → ℕ → ℕ
sum_of zero sum m a = sum
sum_of (suc left) sum m a = sum_of left ((sum + m a) % 256) m (a + 1)

unfoldable pub checksum : Mem → ℕ → ℕ → Bool
unfolding sum_of
checksum m a length = sum_of length 0 m a == 0

-- `memcmp(m + a, s, length of s) == 0`
unfoldable pub same_bytes : Mem → ℕ → List ℕ → Bool
same_bytes m a [] = true
same_bytes m a (c ∷ s) = m a == c && same_bytes m (a + 1) s

-- The test of `find_rsdp`; its first comparison is part of the second.
unfoldable pub is_rsdp : Mem → ℕ → Bool
is_rsdp m a = same_bytes m a (ascii "RSD PTR ") && checksum m a 20

-- The loop from `addr` on, in steps of 16.
unfoldable pub scan_rsdp : ℕ → ℕ → Mem → Option ℕ
scan_rsdp zero addr m = none
scan_rsdp (suc left) addr m =
    let rest = scan_rsdp left (addr + 16) m in if is_rsdp m addr then some addr else rest

-- The segment of the extended BIOS data area is at 0x40E, and the loop runs from 0xE0000 up to
-- 0x100000.
unfoldable pub find_rsdp : Mem → Option ℕ
find_rsdp m =
    let ebda_seg = m 1038 + 256 * m 1039 in
    let scanned = scan_rsdp 8192 917504 m in
    if not (ebda_seg == 0) && is_rsdp m (ebda_seg * 16) then some (ebda_seg * 16) else scanned

-- `sizeof(struct acpi_header)`, with the length at the offset 4.
abbrev pub header_size : ℕ
header_size = 36

abbrev pub table_length : Mem → ℕ → ℕ
table_length m a = load32 m (a + 4)

-- The test of the loop of `acpi_find_table`.
unfoldable pub is_table : Mem → List ℕ → ℕ → Bool
is_table m signature a = same_bytes m a signature && checksum m a (table_length m a)

-- The loop over the `left` entries from `i` on of the table at `rsdt`.
unfoldable pub scan_tables : ℕ → ℕ → Mem → ℕ → List ℕ → Option ℕ
scan_tables zero i m rsdt signature = none
scan_tables (suc left) i m rsdt signature =
    let a = load32 m (rsdt + header_size + 4 * i) in
    let rest = scan_tables left (i + 1) m rsdt signature in
    if is_table m signature a then some a else rest

-- `entries`, an `int`: the difference wraps around in `uint32_t`.
unfoldable pub entries_of : Mem → ℕ → ℕ
entries_of m rsdt = (table_length m rsdt + (2 ^ 32 - header_size)) % 2 ^ 32 / 4

unfoldable pub tables_of : Mem → List ℕ → Option ℕ → Option ℕ
unfolding entries_of
tables_of m signature none = none
tables_of m signature (some rsdp) =
    let rsdt = load32 m (rsdp + 16) in
    let found = scan_tables (entries_of m rsdt) 0 m rsdt signature in
    if rsdt == 0 then none else found

unfoldable pub acpi_find_table : Mem → List ℕ → Option ℕ
unfolding tables_of
acpi_find_table m signature = tables_of m signature (find_rsdp m)
