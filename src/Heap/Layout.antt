-- ===== src/Heap/Layout.antt =====
-- What stands where in the heap, after any calls of `malloc` and `free`: the headers of all blocks and
-- the regions handed out.
use calculatoros.Prelude.{
  ℕ, ◌+◌, ◌≤◌, some, none, List, [], ◌∷◌, arith, Bool-cases, inl, inr, if◌then◌else◌,
}
use mathlib.Core.List.{Mem}
use calculatoros.Prelude.Int.{ℤ}
use calculatoros.Heap.{Heap, heap_size, header, malloc, free}
use calculatoros.Heap.Tiling.{Tiles, IsHeap, malloc-IsHeap, free-IsHeap}
use calculatoros.Heap.Regions.{regions}

-- The heaps that the kernel can come to: it calls `malloc` for any size, and `free` with NULL or a
-- pointer to a region that is handed out.
pub data Reachable : Heap → Type 0 where
  initial : Reachable []
  allocates : {h : Heap} → (size : ℤ) → Reachable h → Reachable (malloc size h).1
  frees :
      {h : Heap} → (p n : ℕ) → Mem (p, n) (regions h) → Reachable h → Reachable (free (some p) h)
  frees_null : {h : Heap} → Reachable h → Reachable (free none h)

-- Address and length of each header, free or not, and of each region handed out, in the order of the
-- heap.
abbrev pub pieces : Heap → List (ℕ × ℕ)
pieces [] = []
pieces (b ∷ bs) =
    (b.addr, header) ∷ (if b.used then (b.addr + header, b.size) ∷ pieces bs else pieces bs)

-- Between `lo` and `e`, each piece begins where the one in front of it ends, or behind that.
abbrev pub Disjoint : ℕ → ℕ → List (ℕ × ℕ) → Type 0
Disjoint lo e [] = lo ≤ e
Disjoint lo e ((p, n) ∷ ps) = (lo ≤ p) × Disjoint (p + n) e ps

Disjoint-from : (lo lo' e : ℕ) (ps : List (ℕ × ℕ)) → lo ≤ lo' → Disjoint lo' e ps → Disjoint lo e ps
Disjoint-from lo lo' e [] h a = omega arith
Disjoint-from lo lo' e ((p, n) ∷ ps) h a = (omega arith, a.1)

Tiles-Disjoint : (h : Heap) (a e : ℕ) → Tiles a e h → Disjoint a e (pieces h)
Tiles-Disjoint [] a e t = omega arith
Tiles-Disjoint (b ∷ bs) a e t =
    let rest = Tiles-Disjoint bs (a + header + b.size) e t.1 in
    elim (Bool-cases b.used) [
      | inl u ↦ rw u (
        omega arith,
        (omega arith, Disjoint-from _ (a + header + b.size) e (pieces bs) (omega arith) rest),
      )
      | inr u ↦
          rw u (omega arith, Disjoint-from _ (a + header + b.size) e (pieces bs) (omega arith) rest)
    ]

Reachable-IsHeap : {h : Heap} → Reachable h → IsHeap h
Reachable-IsHeap initial = tt
Reachable-IsHeap (allocates {h} size r) = malloc-IsHeap size h (Reachable-IsHeap r)
Reachable-IsHeap (frees {h} p n m r) = free-IsHeap (some p) h (Reachable-IsHeap r)
Reachable-IsHeap (frees_null {h} r) = free-IsHeap none h (Reachable-IsHeap r)

IsHeap-Disjoint : (h : Heap) → IsHeap h → Disjoint 0 heap_size (pieces h)
IsHeap-Disjoint [] t = omega arith
IsHeap-Disjoint (b ∷ bs) t = Tiles-Disjoint (b ∷ bs) 0 heap_size t

-- After any calls of `malloc`, for sizes of any kind, and of `free`, with NULL or with pointers to
-- regions that are handed out at the time: the headers of all blocks, used and free, and the regions
-- handed out lie inside the heap, and no two of them overlap.
pub Reachable-Disjoint : {h : Heap} → Reachable h → Disjoint 0 heap_size (pieces h)
Reachable-Disjoint {h} r = IsHeap-Disjoint h (Reachable-IsHeap r)
