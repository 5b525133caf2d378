-- ===== src/Heap/Tests.antt =====
-- Runs of the heap.
use calculatoros.Prelude.{◌≡◌, refl, ap, sym, subst, true, false, some, [], ◌∷◌}
use calculatoros.Prelude.Int.{pos}
use calculatoros.Heap.{Heap, init_heap, find_block, take_block, or_init, malloc, free}
use calculatoros.Heap.Tiling.{IsHeap, malloc-IsHeap, free-IsHeap}
use mathlib.Core.List.{Mem, mem-cons_self}
use calculatoros.Heap.Regions.{regions, Granted, malloc-Granted}
use calculatoros.Heap.Layout.{
  Reachable, initial, allocates, frees, pieces, Disjoint, Reachable-Disjoint,
}
use calculatoros.Heap.Compact.{free-malloc}

-- A used block of 100 bytes, a free one of 50, and the rest in use.
abbrev sample : Heap
sample =
    record { addr = 0; size = 100; used = true }
    ∷ record { addr = 112; size = 50; used = false }
    ∷ record { addr = 174; size = 1048575814; used = true }
    ∷ []

sample-IsHeap : IsHeap sample
sample-IsHeap = (refl, (refl, (refl, refl)))

malloc-sample : malloc (pos 20) sample ≡ (
  some 124,
  record { addr = 0; size = 100; used = true }
      ∷ record { addr = 112; size = 20; used = true }
      ∷ record { addr = 144; size = 18; used = false }
      ∷ record { addr = 174; size = 1048575814; used = true }
      ∷ [],
)
unfolding malloc or_init find_block take_block
malloc-sample = refl

malloc-IsHeap_example : IsHeap (malloc (pos 20) sample).1
malloc-IsHeap_example = malloc-IsHeap (pos 20) sample sample-IsHeap

free-IsHeap_example : IsHeap (free (some 124) sample)
free-IsHeap_example = free-IsHeap (some 124) sample sample-IsHeap

-- Two requests, and then the first of the two regions is freed.
abbrev two_regions : Heap
two_regions = (malloc (pos 8) (malloc (pos 100) []).1).1

two_regions_run : regions two_regions ≡ (12, 100) ∷ (124, 8) ∷ []
unfolding malloc or_init find_block take_block init_heap
two_regions_run = refl

two_regions-Reachable : Reachable two_regions
two_regions-Reachable = allocates (pos 8) (allocates (pos 100) initial)

first_region : Mem (12, 100) (regions two_regions)
first_region = subst (Mem (12, 100)) (sym two_regions_run) mem-cons_self

Reachable-Disjoint_example : Disjoint 0 1048576000 (pieces (free (some 12) two_regions))
Reachable-Disjoint_example = Reachable-Disjoint (frees 12 100 first_region two_regions-Reachable)

malloc-Granted_example : Granted 20 (or_init sample) (malloc (pos 20) sample)
malloc-Granted_example = malloc-Granted 19 sample

free-malloc_example : free (some 124) (malloc (pos 20) sample).1 ≡ or_init sample
free-malloc_example =
    free-malloc 19 sample 124 sample-IsHeap (refl, (refl, (refl, tt))) (ap (λ r. r.0) malloc-sample)
