-- ===== src/Heap/Regions.antt =====
-- The regions handed out by `malloc`: a request adds one, and `free` takes one away.
use calculatoros.Prelude.{
  ℕ, suc, ◌+◌, ◌-◌, ◌<◌, ◌≤◌, ◌≡◌, refl, ap, ◌∙◌, ◌⊎◌, inl, inr, true, false, not, ◌&&◌, Option,
  some, none, List, [], ◌∷◌, ◌++◌, arith, ◌==◌, ltb, leb, Bool-cases, if◌then◌else◌,
}
use calculatoros.Prelude.Int.{pos}
use calculatoros.Heap.{
  Block, Heap, header, take_block, find_block, or_init, malloc, mark_free, mergeable, merge_from,
  merge_all, free,
}

-- Pointer and size of each block in use, in the order of the heap.
abbrev pub regions : Heap → List (ℕ × ℕ)
regions [] = []
regions (b ∷ bs) = if b.used then (b.addr + header, b.size) ∷ regions bs else regions bs

-- Every free block is smaller than `n`.
abbrev pub NoFit : ℕ → Heap → Type 0
NoFit n [] = Unit
NoFit n (b ∷ bs) = ((b.used ≡ true) ⊎ (b.size < n)) × NoFit n bs

-- What a request for `n` bytes does to a list of blocks.
abbrev pub Granted : ℕ → Heap → Option ℕ × Heap → Type 0
Granted n h (none, h') = (h' ≡ h) × NoFit n h
Granted n h (some p, h') =
    (before after : List (ℕ × ℕ)) × (m : ℕ) × (n ≤ m)
    × (regions h ≡ before ++ after)
    × (regions h' ≡ before ++ ((p, m) ∷ after))

regions-take_block :
    (n : ℕ) (b : Block) (bs : Heap)
    → n ≤ b.size
    → (m : ℕ) × (n ≤ m) × (regions (take_block n b bs) ≡ (b.addr + header, m) ∷ regions bs)
unfolding take_block
regions-take_block n b bs h = elim (Bool-cases (ltb (n + header) b.size)) [
  | inl cut ↦ (n, omega arith, rw cut)
  | inr whole ↦ (b.size, h, rw whole)
]

-- A block in front that is passed over stays as it is.
Granted-cons :
    (n : ℕ) (b : Block) (h : Heap) (o : Option ℕ × Heap)
    → ((b.used ≡ true) ⊎ (b.size < n))
    → Granted n h o
    → Granted n (b ∷ h) (o.0, b ∷ o.1)
Granted-cons n b h (none, h') skip g = (ap (λ t. b ∷ t) g.0, (skip, g.1))
Granted-cons n b h (some p, h') skip (xs, ys, m, big, e, e') = elim (Bool-cases b.used) [
  | inl u ↦ ((b.addr + header, b.size) ∷ xs, ys, m, big, rw (u, e), rw (u, e'))
  | inr u ↦ (xs, ys, m, big, rw (u, e), rw (u, e'))
]

find_block-Granted : (n : ℕ) (h : Heap) → Granted n h (find_block n h)
unfolding find_block
find_block-Granted n [] = (refl, tt)
find_block-Granted n (b ∷ bs) = elim (Bool-cases (not b.used && leb n b.size)) [
  | inl fits ↦ rw fits (taken (ground arith) (regions-take_block n b bs (ground arith)))
  | inr passes ↦
      rw passes (Granted-cons n b bs (find_block n bs) (ground arith) (find_block-Granted n bs))
]
  where
    taken :
        b.used ≡ false
        → (m : ℕ) × (n ≤ m) × (regions (take_block n b bs) ≡ (b.addr + header, m) ∷ regions bs)
        → Granted n (b ∷ bs) (some (b.addr + header), take_block n b bs)
    taken u (m, big, e) = ([], regions bs, m, big, rw u, e)

-- A request for `n` bytes that is granted adds one region of at least `n` bytes and keeps every
-- other; one that is refused changes nothing, and then every free block is too small.
pub malloc-Granted : (n : ℕ) (h : Heap) → Granted (suc n) (or_init h) (malloc (pos (suc n)) h)
unfolding malloc
malloc-Granted n h = find_block-Granted (suc n) (or_init h)

-- The regions other than the one at `p`.
abbrev pub without : ℕ → List (ℕ × ℕ) → List (ℕ × ℕ)
without p [] = []
without p ((q, n) ∷ rs) = if q == p then without p rs else (q, n) ∷ without p rs

regions-mark_free :
    (p : ℕ) (h : Heap) → header ≤ p → regions (mark_free (p - header) h) ≡ without p (regions h)
unfolding mark_free
regions-mark_free p [] h = refl
regions-mark_free p (b ∷ bs) h = ground (arith, regions-mark_free p bs h)

regions-merge_from : (b : Block) (bs : Heap) → regions (merge_from b bs) ≡ regions (b ∷ bs)
unfolding merge_from mergeable
regions-merge_from b [] = refl
regions-merge_from b (c ∷ cs) = ground (
  arith,
  regions-merge_from c cs,
  regions-merge_from (record b { size = b.size + header + c.size }) cs,
)

regions-merge_all : (h : Heap) → regions (merge_all h) ≡ regions h
unfolding merge_all
regions-merge_all [] = refl
regions-merge_all (b ∷ bs) = regions-merge_from b bs

-- `free` takes away the region at the pointer and keeps every other.
pub regions-free :
    (p : ℕ) (h : Heap) → header ≤ p → regions (free (some p) h) ≡ without p (regions h)
unfolding free
regions-free p h le = regions-merge_all (mark_free (p - header) h) ∙ regions-mark_free p h le
