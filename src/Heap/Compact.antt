-- ===== src/Heap/Compact.antt =====
-- `free` merges every pair of neighbouring free blocks, and undoes `malloc`.
use calculatoros.Prelude.{
  ℕ, suc, ◌+◌, ◌-◌, ◌<◌, ◌≤◌, ◌≡◌, refl, ap, sym, ◌∙◌, inl, inr, Bool, false, not, ◌&&◌, some, [],
  ◌∷◌, arith, leb, Bool-cases,
}
use calculatoros.Prelude.Int.{pos}
use calculatoros.Heap.{
  Block, Heap, heap_size, header, init_heap, take_block, find_block, or_init, malloc, mark_free,
  mergeable, merge_from, merge_all, free,
}
use calculatoros.Heap.Tiling.{Tiles, IsHeap, Tiles-mark_free, Tiles-merged}

-- Whether the list begins with a free block.
abbrev pub starts_free : Heap → Bool
starts_free [] = false
starts_free (b ∷ bs) = not b.used

-- Of two neighbours at least one is in use.
abbrev pub IsCompact : Heap → Type 0
IsCompact [] = Unit
IsCompact (b ∷ bs) = ((not b.used && starts_free bs) ≡ false) × IsCompact bs

starts_free-merge_from : (b : Block) (bs : Heap) → starts_free (merge_from b bs) ≡ not b.used
unfolding merge_from
starts_free-merge_from b [] = refl
starts_free-merge_from b (c ∷ cs) =
    ground (arith, starts_free-merge_from (record b { size = b.size + header + c.size }) cs)

merge_from-IsCompact :
    (b : Block) (bs : Heap) (a e : ℕ) → Tiles a e (b ∷ bs) → IsCompact (merge_from b bs)
unfolding merge_from
merge_from-IsCompact b [] a e t = (ground arith, tt)
merge_from-IsCompact b (c ∷ cs) a e t = elim (Bool-cases (mergeable b c)) [
  | inl joined ↦
      rw (joined, merge_from)
        (merge_from-IsCompact (record b { size = b.size + header + c.size }) cs a e
          (Tiles-merged b c cs a e t))
  | inr apart ↦
      rw (apart, merge_from)
        (
          unfold mergeable in ground (arith, starts_free-merge_from c cs),
          merge_from-IsCompact c cs (a + header + b.size) e t.1,
        )
]

merge_all-IsCompact : (h : Heap) (a e : ℕ) → Tiles a e h → IsCompact (merge_all h)
unfolding merge_all
merge_all-IsCompact [] a e t = tt
merge_all-IsCompact (b ∷ bs) a e t = merge_from-IsCompact b bs a e t

-- Whatever the heap was like before, after `free` no two neighbouring blocks are free.
pub free-IsCompact : (p : ℕ) (h : Heap) → IsHeap h → IsCompact (free (some p) h)
unfolding free mark_free merge_all
free-IsCompact p [] t = tt
free-IsCompact p (b ∷ bs) t =
    merge_all-IsCompact (mark_free (p - header) (b ∷ bs)) 0 heap_size
      (Tiles-mark_free (p - header) (b ∷ bs) 0 heap_size t)

-- Where `b` cannot be merged with what follows, the loop of `free` goes on to the next block.
merge_from_apart :
    (b : Block) (h : Heap)
    → (not b.used && starts_free h) ≡ false
    → merge_from b h ≡ b ∷ merge_all h
unfolding merge_from mergeable merge_all
merge_from_apart b [] e = refl
merge_from_apart b (c ∷ cs) e = ground arith

merge_all_compact : (h : Heap) → IsCompact h → merge_all h ≡ h
unfolding merge_all
merge_all_compact [] k = refl
merge_all_compact (b ∷ bs) k =
    merge_from_apart b bs k.0 ∙ ap (λ t. b ∷ t) (merge_all_compact bs k.1)

mark_free_below : (q : ℕ) (h : Heap) (a e : ℕ) → q < a → Tiles a e h → mark_free q h ≡ h
unfolding mark_free
mark_free_below q [] a e lt t = refl
mark_free_below q (b ∷ bs) a e lt t =
    ground (arith, mark_free_below q bs (a + header + b.size) e (omega arith) t.1)

starts_free-merge_all : (h : Heap) → starts_free (merge_all h) ≡ starts_free h
unfolding merge_all
starts_free-merge_all [] = refl
starts_free-merge_all (b ∷ bs) = starts_free-merge_from b bs

-- The block just taken is joined again with what was cut off it.
free-take_block :
    (n : ℕ) (b : Block) (bs : Heap) (a e : ℕ)
    → n ≤ b.size
    → b.used ≡ false
    → Tiles a e (b ∷ bs)
    → IsCompact (b ∷ bs)
    → merge_all (mark_free b.addr (take_block n b bs)) ≡ b ∷ bs
unfolding take_block mark_free merge_all merge_from mergeable
free-take_block n b bs a e le u t k = ground (
  arith,
  mark_free_below b.addr bs (a + header + b.size) e (omega arith) t.1,
  merge_from_apart b bs k.0,
  merge_all_compact bs k.1,
)

-- Going past a block in front, at which the pointer is not.
free-cons :
    (q : ℕ) (b : Block) (h bs : Heap)
    → b.addr < q
    → IsCompact (b ∷ bs)
    → merge_all (mark_free q h) ≡ bs
    → merge_all (mark_free q (b ∷ h)) ≡ b ∷ bs
unfolding mark_free merge_all
free-cons q b h bs lt k e =
    let x : Heap = mark_free q h in
    let same : starts_free x ≡ starts_free bs = sym (starts_free-merge_all x) ∙ ap starts_free e in
    ground (arith, merge_from_apart b x, k.0)

free-find_block :
    (n : ℕ) (h : Heap) (a e p : ℕ)
    → Tiles a e h
    → IsCompact h
    → (find_block n h).0 ≡ some p
    → (a + header ≤ p) × (merge_all (mark_free (p - header) (find_block n h).1) ≡ h)
unfolding find_block
free-find_block n [] a e p t k found = cc
free-find_block n (b ∷ bs) a e p t k found = elim (Bool-cases (not b.used && leb n b.size)) [
  | inl fits ↦
      let at : p ≡ b.addr + header = ground (arith, found) in
      let back : p - header ≡ b.addr = omega arith in
      (omega arith, rw (fits, back) (free-take_block n b bs a e (ground arith) (ground arith) t k))
  | inr passes ↦
      let ih = free-find_block n bs (a + header + b.size) e p t.1 k.1 (ground (arith, found)) in
      (
        omega arith,
        rw passes (free-cons (p - header) b (find_block n bs).1 bs (omega arith) k ih.1),
      )
]

-- Freeing what was just allocated gives back the heap as it was, if no two neighbouring blocks
-- were free in it.
pub free-malloc :
    (n : ℕ) (h : Heap) (p : ℕ)
    → IsHeap h
    → IsCompact h
    → (malloc (pos (suc n)) h).0 ≡ some p
    → free (some p) (malloc (pos (suc n)) h).1 ≡ or_init h
unfolding malloc free or_init init_heap
free-malloc n [] p t k found =
    (free-find_block (suc n) init_heap 0 heap_size p (refl, refl) (refl, tt) found).1
free-malloc n (b ∷ bs) p t k found = (free-find_block (suc n) (b ∷ bs) 0 heap_size p t k found).1
