-- ===== src/Acpi/Pointer.antt =====
-- The root pointer that `find_rsdp` finds.
use calculatoros.Prelude.{
  ℕ, zero, suc, ◌+◌, ◌*◌, ◌%◌, ◌<◌, ◌≡◌, ◌≢◌, ◌⊎◌, ◌∙◌, ap, sym, subst, refl, true, false, some,
  Bool-cases, inl, inr, ◌==◌, arith,
}
use calculatoros.CString.{ascii}
use calculatoros.Memory.{Mem}
use calculatoros.Acpi.{is_rsdp, scan_rsdp, find_rsdp}
use calculatoros.Acpi.Bytes.{total, Has, same_bytes-Has, same_bytes_of_Has, checksum-total}

-- At `a` stands a root pointer, 20 bytes that begin with its signature and add up to 0 in a byte.
abbrev pub IsPointer : Mem → ℕ → Type 0
IsPointer m a = Has m a (ascii "RSD PTR ") × (total 20 m a % 256 ≡ 0)

-- The segment of the extended BIOS data area, the word at 0x40E.
abbrev pub segment : Mem → ℕ
segment m = m 1038 + 256 * m 1039

-- Where the firmware's pointer is: at the start of the extended BIOS data area, or else at the lowest
-- of the addresses from 0xE0000 up to 0x100000, 16 bytes apart, at which there is one.
pub data FirstPointer (m : Mem) : ℕ → Type 0 where
  in_area : segment m ≢ 0 → IsPointer m (segment m * 16) → FirstPointer m (segment m * 16)
  in_rom :
      (k : ℕ)
      → ((segment m ≡ 0) ⊎ ¬ IsPointer m (segment m * 16))
      → k < 8192
      → IsPointer m (917504 + 16 * k)
      → ((j : ℕ) → j < k → ¬ IsPointer m (917504 + 16 * j))
      → FirstPointer m (917504 + 16 * k)

is_rsdp_of_IsPointer : (m : Mem) (a : ℕ) → IsPointer m a → is_rsdp m a ≡ true
unfolding is_rsdp
is_rsdp_of_IsPointer m a (has, sum) =
    let e = checksum-total m a 20 in
    let same = same_bytes_of_Has m (ascii "RSD PTR ") a has in ground arith

is_rsdp_none : (m : Mem) (a : ℕ) → ¬ IsPointer m a → is_rsdp m a ≡ false
unfolding is_rsdp
is_rsdp_none m a none_there = elim (Bool-cases (is_rsdp m a)) [
  | inl y ↦
      let e = checksum-total m a 20 in
      absurd (none_there (same_bytes-Has m (ascii "RSD PTR ") a (ground arith), ground arith))
  | inr n ↦ n
]

scan_rsdp_first :
    (left addr k : ℕ) (m : Mem)
    → k < left
    → IsPointer m (addr + 16 * k)
    → ((j : ℕ) → j < k → ¬ IsPointer m (addr + 16 * j))
    → scan_rsdp left addr m ≡ some (addr + 16 * k)
unfolding scan_rsdp
scan_rsdp_first zero addr k m h is before = elim h [ ]
scan_rsdp_first (suc left) addr zero m h is before =
    let e : addr + 16 * 0 ≡ addr = omega arith in
    rw (is_rsdp_of_IsPointer m addr (subst (IsPointer m) e is)) (ap some (sym e))
scan_rsdp_first (suc left) addr (suc k) m h is before =
    let e : addr + 16 * 0 ≡ addr = omega arith in
    let at : (j : ℕ) → addr + 16 * suc j ≡ addr + 16 + 16 * j = λ j. omega arith in
    rw (is_rsdp_none m addr (subst (λ a. ¬ IsPointer m a) e (before 0 (omega arith)))) (
      scan_rsdp_first left (addr + 16) k m (omega arith) (subst (IsPointer m) (at k) is)
        (λ j l. subst (λ a. ¬ IsPointer m a) (at j) (before (suc j) (omega arith)))
      ∙ ap some (sym (at k)))

pub find_rsdp_first : (m : Mem) (rsdp : ℕ) → FirstPointer m rsdp → find_rsdp m ≡ some rsdp
unfolding find_rsdp
find_rsdp_first m rsdp (in_area ne is) =
    let y = is_rsdp_of_IsPointer m (segment m * 16) is in
    let n : (segment m == 0) ≡ false = ground arith in rw (n, y) refl
find_rsdp_first m rsdp (in_rom k (inl z) h is before) =
    let y : (segment m == 0) ≡ true = ground arith in
    rw (y, scan_rsdp_first 8192 917504 k m h is before) refl
find_rsdp_first m rsdp (in_rom k (inr none_there) h is before) =
    let n = is_rsdp_none m (segment m * 16) none_there in
    let s = scan_rsdp_first 8192 917504 k m h is before in ground (arith, n, s)
