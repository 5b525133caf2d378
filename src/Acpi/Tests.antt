-- ===== src/Acpi/Tests.antt =====
-- A run of the search: the root pointer at 0x1000 and a root table at 0x2000 with one entry, a table
-- "HPET" of 8 bytes at 0x3000.
use calculatoros.Prelude.{ℕ, ◌+◌, ◌*◌, ◌≡◌, refl, some, List, arith}
use calculatoros.CString.{ascii}
use calculatoros.Memory.{Mem, store, memcpy}
use calculatoros.Memory.Words.{load32, store32}
use calculatoros.Prelude.{get_or, length}
use calculatoros.Acpi.{
  find_rsdp, is_rsdp, same_bytes, checksum, acpi_find_table, scan_tables, is_table, entries_of,
}
use calculatoros.Acpi.Pointer.{IsPointer, segment, FirstPointer, in_area}
use calculatoros.Acpi.Found.{FirstTable, acpi_find_table-FirstTable}

abbrev text_at : ℕ → List ℕ → Mem → Mem
text_at a s m = memcpy m a (λ i. get_or s i 0) (length s)

-- The checksums are made up for by one byte each.
abbrev firmware : Mem
firmware =
    let empty : Mem = λ a. 0 in
    let pointer = store32 (store32 (text_at 4096 (ascii "RSD PTR ") empty) 1038 256) 4112 8192 in
    let root = store32 (store32 (text_at 8192 (ascii "RSDT") pointer) 8196 40) 8228 12288 in
    let table = store32 (text_at 12288 (ascii "HPET") root) 12292 9 in
    store (store table 4104 193) 12296 198

firmware-IsPointer : IsPointer firmware 4096
unfolding store32
firmware-IsPointer = ((refl, (refl, (refl, (refl, (refl, (refl, (refl, (refl, tt)))))))), refl)

area_run : segment firmware ≡ 256
unfolding store32
area_run = refl

firmware-FirstPointer : FirstPointer firmware 4096
unfolding store32
firmware-FirstPointer = in_area (λ e. ground arith) firmware-IsPointer

root_run : load32 firmware (4096 + 16) ≡ 8192
unfolding load32 store32
root_run = refl

length_run : load32 firmware (8192 + 4) ≡ 36 + 4 * 1
unfolding load32 store32
length_run = refl

table_run : acpi_find_table firmware (ascii "HPET") ≡ some 12288
unfolding acpi_find_table find_rsdp is_rsdp scan_tables is_table entries_of same_bytes checksum
    load32 store32
table_run = refl

acpi_find_table-FirstTable_example :
    FirstTable firmware 8192 (ascii "HPET") 0 1 (acpi_find_table firmware (ascii "HPET"))
acpi_find_table-FirstTable_example =
    acpi_find_table-FirstTable firmware (ascii "HPET") 4096 8192 1 firmware-FirstPointer root_run
      (omega arith) length_run (omega arith)
