-- ===== src/Heap.antt =====
-- `malloc` and `free` of kernel.c: the list of blocks that tile the heap.
pub mod Tiling
pub mod Regions
pub mod Layout
pub mod Compact
mod Tests
use calculatoros.Prelude.{
  ℕ, zero, suc, ◌+◌, ◌-◌, Bool, true, false, not, ◌&&◌, Option, none, some, List, [], ◌∷◌, ◌==◌,
  ltb, leb, if◌then◌else◌,
}
use calculatoros.Prelude.Int.{ℤ, pos, negsuc}

-- `HEAP_SIZE`, and `sizeof(block_t)`: two `int`s and a pointer of 32 bits.
abbrev pub heap_size : ℕ
heap_size = 1048576000

abbrev pub header : ℕ
header = 12

-- `block_t`, with the offset in `heap` at which it stands; `next` is the rest of the list.
pub record Block : Type 0 where
  pub addr : ℕ
  pub size : ℕ
  pub used : Bool

-- `free_list`; `[]` is NULL.
abbrev pub Heap : Type 0
Heap = List Block

pub init_heap : Heap
init_heap = record { addr = 0; size = heap_size - header; used = false } ∷ []

-- The block that `malloc` has found, cut in two where the rest can hold a header and a byte.
pub take_block : ℕ → Block → Heap → Heap
take_block n b bs =
    if ltb (n + header) b.size
    then record { addr = b.addr; size = n; used = true }
      ∷ record { addr = b.addr + header + n; size = b.size - n - header; used = false }
      ∷ bs
    else record b { used = true } ∷ bs

-- The loop of `malloc`: the pointer is an offset in `heap`, `none` is NULL.
pub find_block : ℕ → Heap → Option ℕ × Heap
find_block n [] = (none, [])
find_block n (b ∷ bs) =
    let (p, rest) = find_block n bs in
    if not b.used && leb n b.size
    then (some (b.addr + header), take_block n b bs)
    else (p, b ∷ rest)

pub or_init : Heap → Heap
or_init [] = init_heap
or_init (b ∷ bs) = b ∷ bs

pub malloc : ℤ → Heap → Option ℕ × Heap
malloc (negsuc _) h = (none, or_init h)
malloc (pos zero) h = (none, or_init h)
malloc (pos (suc n)) h = find_block (suc n) (or_init h)

-- `block->used = 0` on the block whose header stands at `a`.
pub mark_free : ℕ → Heap → Heap
mark_free a [] = []
mark_free a (b ∷ bs) = (if b.addr == a then record b { used = false } else b) ∷ mark_free a bs

-- `!curr->used && !curr->next->used && curr + sizeof(block_t) + curr->size == curr->next`
pub mergeable : Block → Block → Bool
mergeable b c = not b.used && not c.used && b.addr + header + b.size == c.addr

-- The loop of `free` with `curr` at `b`.
pub merge_from : Block → Heap → Heap
merge_from b [] = b ∷ []
merge_from b (c ∷ cs) = elim (mergeable b c) [
  | true ↦ merge_from (record b { size = b.size + header + c.size }) cs
  | false ↦ b ∷ merge_from c cs
]

pub merge_all : Heap → Heap
merge_all [] = []
merge_all (b ∷ bs) = merge_from b bs

-- The pointer is one that `malloc` returned, or NULL.
pub free : Option ℕ → Heap → Heap
free none h = h
free (some p) h = merge_all (mark_free (p - header) h)
