-- ===== src/Heap/Tiling.antt =====
-- The blocks tile the heap: each begins where the one before it ends, and the last ends at the
-- end of the heap. `malloc` and `free` keep that.
use calculatoros.Prelude.{
  ℕ, zero, suc, ◌+◌, ◌-◌, ◌≤◌, ◌≡◌, refl, not, Option, some, none, ◌&&◌, [], ◌∷◌, arith, ◌==◌, ltb,
  leb, subst, Bool-cases, inl, inr,
}
use calculatoros.Prelude.Int.{ℤ, pos, negsuc}
use calculatoros.Heap.{
  Block, Heap, heap_size, header, init_heap, take_block, find_block, or_init, malloc, mark_free,
  mergeable, merge_from, merge_all, free,
}

abbrev pub Tiles : ℕ → ℕ → Heap → Type 0
Tiles a e [] = a ≡ e
Tiles a e (b ∷ bs) = (b.addr ≡ a) × Tiles (a + header + b.size) e bs

-- Not yet set up, or a tiling of the whole heap.
abbrev pub IsHeap : Heap → Type 0
IsHeap [] = Unit
IsHeap (b ∷ bs) = Tiles 0 heap_size (b ∷ bs)

-- The starting point may be written in another way.
Tiles-at : {a a' : ℕ} (e : ℕ) (h : Heap) → a ≡ a' → Tiles a e h → Tiles a' e h
Tiles-at e h p t = subst (λ x. Tiles x e h) p t

pub Tiles-take_block :
    (n : ℕ) (b : Block) (bs : Heap) (a e : ℕ)
    → n ≤ b.size
    → Tiles a e (b ∷ bs)
    → Tiles a e (take_block n b bs)
unfolding take_block
Tiles-take_block n b bs a e h t = elim (Bool-cases (ltb (n + header) b.size)) [
  | inl cut ↦ rw cut (t.0, (omega arith, Tiles-at e bs (ground arith) t.1))
  | inr whole ↦ rw whole (t.0, t.1)
]

Tiles-find_block : (n : ℕ) (h : Heap) (a e : ℕ) → Tiles a e h → Tiles a e (find_block n h).1
unfolding find_block
Tiles-find_block n [] a e t = t
Tiles-find_block n (b ∷ bs) a e t = elim (Bool-cases (not b.used && leb n b.size)) [
  | inl fits ↦ rw fits (Tiles-take_block n b bs a e (ground arith) t)
  | inr passes ↦ rw passes (t.0, Tiles-find_block n bs (a + header + b.size) e t.1)
]

pub Tiles-mark_free : (p : ℕ) (h : Heap) (a e : ℕ) → Tiles a e h → Tiles a e (mark_free p h)
unfolding mark_free
Tiles-mark_free p [] a e t = t
Tiles-mark_free p (b ∷ bs) a e t =
    let rest = Tiles-mark_free p bs (a + header + b.size) e t.1 in
    elim (Bool-cases (b.addr == p)) [
      | inl here ↦ rw here (t.0, rest)
      | inr other ↦ rw other (t.0, rest)
    ]

-- Two neighbours taken as one block.
pub Tiles-merged :
    (b c : Block) (cs : Heap) (a e : ℕ)
    → Tiles a e (b ∷ c ∷ cs)
    → Tiles a e (record b { size = b.size + header + c.size } ∷ cs)
Tiles-merged b c cs a e t = (t.0, Tiles-at e cs (omega arith) t.1.1)

Tiles-merge_from :
    (b : Block) (bs : Heap) (a e : ℕ) → Tiles a e (b ∷ bs) → Tiles a e (merge_from b bs)
unfolding merge_from
Tiles-merge_from b [] a e t = t
Tiles-merge_from b (c ∷ cs) a e t = elim (Bool-cases (mergeable b c)) [
  | inl joined ↦
      rw (joined, merge_from)
        (Tiles-merge_from (record b { size = b.size + header + c.size }) cs a e
          (Tiles-merged b c cs a e t))
  | inr apart ↦ rw (apart, merge_from) (t.0, Tiles-merge_from c cs (a + header + b.size) e t.1)
]

Tiles-merge_all : (h : Heap) (a e : ℕ) → Tiles a e h → Tiles a e (merge_all h)
unfolding merge_all
Tiles-merge_all [] a e t = t
Tiles-merge_all (b ∷ bs) a e t = Tiles-merge_from b bs a e t

IsHeap-of_Tiles : (h : Heap) → Tiles 0 heap_size h → IsHeap h
IsHeap-of_Tiles [] t = tt
IsHeap-of_Tiles (b ∷ bs) t = t

pub or_init-Tiles : (h : Heap) → IsHeap h → Tiles 0 heap_size (or_init h)
unfolding or_init init_heap
or_init-Tiles [] t = (refl, refl)
or_init-Tiles (b ∷ bs) t = t

-- `malloc` keeps the tiling of the heap, whatever size is asked for.
pub malloc-IsHeap : (size : ℤ) (h : Heap) → IsHeap h → IsHeap (malloc size h).1
unfolding malloc
malloc-IsHeap (negsuc n) h t = IsHeap-of_Tiles _ (or_init-Tiles h t)
malloc-IsHeap (pos zero) h t = IsHeap-of_Tiles _ (or_init-Tiles h t)
malloc-IsHeap (pos (suc n)) h t =
    IsHeap-of_Tiles _ (Tiles-find_block (suc n) (or_init h) 0 heap_size (or_init-Tiles h t))

-- `free` keeps the tiling of the heap.
pub free-IsHeap : (p : Option ℕ) (h : Heap) → IsHeap h → IsHeap (free p h)
unfolding free mark_free merge_all
free-IsHeap none h t = t
free-IsHeap (some p) [] t = tt
free-IsHeap (some p) (b ∷ bs) t = IsHeap-of_Tiles (merge_all (mark_free (p - header) (b ∷ bs))) (
    Tiles-merge_all (mark_free (p - header) (b ∷ bs)) 0 heap_size
      (Tiles-mark_free (p - header) (b ∷ bs) 0 heap_size t))
