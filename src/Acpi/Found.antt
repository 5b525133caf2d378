-- ===== src/Acpi/Found.antt =====
-- What `acpi_find_table` finds.
use calculatoros.Prelude.{
  ℕ, zero, suc, ◌+◌, ◌*◌, ◌-◌, ◌/◌, ◌%◌, ◌^◌, ◌<◌, ◌≤◌, ◌≡◌, ◌≢◌, refl, subst, ℕ_discrete, true,
  false, Bool-cases, inl, inr, Option, none, some, List, ◌==◌, arith,
}
use calculatoros.Memory.{Mem}
use calculatoros.Memory.Words.{load32}
use calculatoros.Acpi.{
  header_size, is_table, table_length, scan_tables, entries_of, acpi_find_table,
}
use calculatoros.Acpi.Pointer.{FirstPointer, find_rsdp_first}
use calculatoros.Acpi.Bytes.{total, Has, same_bytes-Has, same_bytes_of_Has, checksum-total}

-- The address in the entry `i` of the table at `rsdt`, behind its header of 36 bytes.
abbrev pub entry : Mem → ℕ → ℕ → ℕ
entry m rsdt i = load32 m (rsdt + 36 + 4 * i)

-- At `a` is a table with the signature, whose bytes add up to 0 in a byte; the second word of it is
-- their number.
abbrev pub IsTable : Mem → List ℕ → ℕ → Type 0
IsTable m signature a = Has m a signature × (total (load32 m (a + 4)) m a % 256 ≡ 0)

is_table-IsTable :
    (m : Mem) (signature : List ℕ) (a : ℕ) → is_table m signature a ≡ true → IsTable m signature a
unfolding is_table
is_table-IsTable m signature a h =
    let e = checksum-total m a (table_length m a) in
    (same_bytes-Has m signature a (ground arith), ground arith)

IsTable-none :
    (m : Mem) (signature : List ℕ) (a : ℕ)
    → is_table m signature a ≡ false
    → ¬ IsTable m signature a
unfolding is_table
IsTable-none m signature a h (has, sum) =
    let e = checksum-total m a (table_length m a) in
    let same = same_bytes_of_Has m signature a has in ground arith

-- The first entry from `i` on and before `limit` of a table with the signature and a correct
-- checksum, or none where there is no such entry.
abbrev pub FirstTable : Mem → ℕ → List ℕ → ℕ → ℕ → Option ℕ → Type 0
FirstTable m rsdt signature i limit none =
    (j : ℕ) → i ≤ j → j < limit → ¬ IsTable m signature (entry m rsdt j)
FirstTable m rsdt signature i limit (some a) =
    (k : ℕ) × (i ≤ k)
    × (k < limit)
    × (a ≡ entry m rsdt k)
    × IsTable m signature a
    × ((j : ℕ) → i ≤ j → j < k → ¬ IsTable m signature (entry m rsdt j))

module _ (m : Mem) (rsdt : ℕ) (signature : List ℕ) where
  -- An entry that is not the table is passed.
  passed :
      (i limit : ℕ) (r : Option ℕ)
      → ¬ IsTable m signature (entry m rsdt i)
      → FirstTable m rsdt signature (i + 1) limit r
      → FirstTable m rsdt signature i limit r
  passed i limit none n h = λ j lo hi. elim (ℕ_discrete i j) [
    | yes e ↦ subst (λ k. ¬ IsTable m signature (entry m rsdt k)) e n
    | no ne ↦ h j (omega arith) hi
  ]
  passed i limit (some a) n (k, lo, hi, at, is, before) = (
    k,
    omega arith,
    hi,
    at,
    is,
    λ j l u. elim (ℕ_discrete i j) [
      | yes e ↦ subst (λ k. ¬ IsTable m signature (entry m rsdt k)) e n
      | no ne ↦ before j (omega arith) u
    ],
  )

  scan_tables-FirstTable :
      (left i : ℕ) → FirstTable m rsdt signature i (i + left) (scan_tables left i m rsdt signature)
  unfolding scan_tables
  scan_tables-FirstTable zero i = λ j lo hi. absurd (omega arith)
  scan_tables-FirstTable (suc left) i = elim (Bool-cases (is_table m signature (entry m rsdt i))) [
    | inl y ↦ rw y (
      i,
      omega arith,
      omega arith,
      refl,
      is_table-IsTable m signature _ y,
      λ j lo hi. absurd (omega arith),
    )
    | inr n ↦ rw n (
        let e : i + 1 + left ≡ i + suc left = omega arith in
        passed i (i + suc left) (scan_tables left (i + 1) m rsdt signature)
          (IsTable-none m signature _ n)
          (subst
            (λ l. FirstTable m rsdt signature (i + 1) l (scan_tables left (i + 1) m rsdt signature))
            e (scan_tables-FirstTable left (i + 1))))
  ]

-- Where the firmware has a root pointer, in the extended BIOS data area or else the first one from
-- 0xE0000 on, with the address, not 0, of a root table of 36 + 4 * `n` bytes, below 2 ^ 32, that lists
-- `n` tables: `acpi_find_table` returns the first of them that has the signature and a correct
-- checksum, tables with a wrong checksum being passed, and nothing where none of the `n` has both.
pub acpi_find_table-FirstTable :
    (m : Mem) (signature : List ℕ) (rsdp rsdt n : ℕ)
    → FirstPointer m rsdp
    → load32 m (rsdp + 16) ≡ rsdt
    → rsdt ≢ 0
    → load32 m (rsdt + 4) ≡ 36 + 4 * n
    → 36 + 4 * n < 2 ^ 32
    → FirstTable m rsdt signature 0 n (acpi_find_table m signature)
unfolding acpi_find_table entries_of
acpi_find_table-FirstTable m signature rsdp rsdt n first at ne listed fit =
    let there : (rsdt == 0) ≡ false = ground arith in
    let entries : (36 + 4 * n + (2 ^ 32 - header_size)) % 2 ^ 32 / 4 ≡ n = omega arith in
    rw (find_rsdp_first m rsdp first, at, there, listed, entries)
      (subst (λ l. FirstTable m rsdt signature 0 l (scan_tables n 0 m rsdt signature))
        (let e : 0 + n ≡ n = omega arith in e) (scan_tables-FirstTable m rsdt signature n 0))
