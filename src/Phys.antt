-- ===== src/Phys.antt =====
-- The physical page allocator of kernel.c: `phys_bitmap` and the functions on it. The bitmap is
-- the memory from the address 0 on.
pub mod Runs
pub mod Alloc
mod Tests
use calculatoros.Prelude.{
  ℕ, zero, suc, ◌+◌, ◌*◌, ◌/◌, Bool, true, false, Option, none, some, ◌==◌, ltb, if◌then◌else◌,
}
use calculatoros.Prelude.Int.{ℤ, pos, negsuc}
use calculatoros.Memory.{Mem}
use calculatoros.Bitmap

-- `MAX_PAGES`, 1000 MB in pages of 4096 bytes.
abbrev pub max_pages : ℕ
max_pages = 256000

abbrev pub page_size : ℕ
page_size = 4096

pub phys_set : ℕ → Mem → Mem
phys_set page m = Bitmap.set 0 m page

pub phys_clear : ℕ → Mem → Mem
phys_clear page m = Bitmap.clear 0 m page

pub phys_test : ℕ → Mem → Bool
phys_test page m = Bitmap.test 0 m page

-- The loops `for (j = 0; j < n; j++)` that set or clear the pages from `start` on.
pub set_pages : ℕ → ℕ → Mem → Mem
set_pages zero start m = m
set_pages (suc n) start m = set_pages n (start + 1) (phys_set start m)

pub clear_pages : ℕ → ℕ → Mem → Mem
clear_pages zero start m = m
clear_pages (suc n) start m = clear_pages n (start + 1) (phys_clear start m)

-- `if (start == -1) start = i;`
abbrev pub start_or : Option ℕ → ℕ → ℕ
start_or none i = i
start_or (some s) i = s

-- The search of `alloc_phys` with `left` pages to look at. `start` is `none` at -1. The answer is
-- the first page of the run taken, `none` where the loop ends.
pub scan : ℕ → ℕ → ℕ → Option ℕ → ℕ → Mem → Option ℕ × Mem
scan pages zero i start count m = (none, m)
scan pages (suc left) i start count m = elim (phys_test i m) [
  | true ↦ scan pages left (i + 1) none 0 m
  | false ↦ elim (count + 1 == pages) [
    | true ↦ (some (start_or start i), set_pages pages (start_or start i) m)
    | false ↦ scan pages left (i + 1) (some (start_or start i)) (count + 1) m
  ]
]

-- The pointer that is returned: 0 is NULL.
pub address : Option ℕ → ℕ
address none = 0
address (some start) = start * page_size

pub alloc_phys : ℤ → Mem → ℕ × Mem
alloc_phys (negsuc _) m = (0, m)
alloc_phys (pos zero) m = (0, m)
alloc_phys (pos (suc n)) m =
    let (found, m') = scan (suc n) max_pages 0 none 0 m in (address found, m')

pub free_phys : ℕ → ℤ → Mem → Mem
free_phys addr (negsuc _) m = m
free_phys addr (pos pages) m = if addr == 0 then m else clear_pages pages (addr / page_size) m

-- `sizeof(phys_bitmap)`.
abbrev pub bitmap_bytes : ℕ
bitmap_bytes = 32000

abbrev pub kernel_pages : ℕ
kernel_pages = 1024

pub init_phys : Mem → Mem
init_phys m = set_pages kernel_pages 0 (λ a. if ltb a bitmap_bytes then 0 else m a)
