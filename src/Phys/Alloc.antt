-- ===== src/Phys/Alloc.antt =====
-- `alloc_phys` is first fit: it takes a free run whenever there is one, the first one, and no page
-- outside it; `free_phys` gives the run back.
use calculatoros.Prelude.{
  ℕ, zero, suc, ◌+◌, ◌-◌, ◌*◌, ◌/◌, ◌<◌, ◌≤◌, ◌≡◌, ◌≢◌, ◌⊎◌, inl, inr, true, false, ◌||◌, arith,
  ◌==◌, refl, Option, none, some, Bool-cases, dec_lt, ℕ_discrete,
}
use calculatoros.Prelude.Int.{pos}
use calculatoros.Memory.{Mem}
use calculatoros.Bitmap.Laws.{AreBytes}
use calculatoros.Phys.{
  phys_test, set_pages, start_or, scan, address, alloc_phys, free_phys, max_pages, page_size,
}
use calculatoros.Phys.Runs.{in_run, test-set_pages, test-clear_pages, set_pages-AreBytes}

-- The `n` pages from `s` on are free.
abbrev pub IsFree : Mem → ℕ → ℕ → Type 0
IsFree m s n = (p : ℕ) → s ≤ p → p < s + n → phys_test p m ≡ false

-- What the search knows at page `i`: the `count` pages before it are free, the page before those
-- is taken, and no run of `pages` free pages ends before `i`.
record Searching (m : Mem) (pages i : ℕ) (start : Option ℕ) (count : ℕ) : Type 0 where
  short : count < pages
  fits : count ≤ i
  begins : start_or start i ≡ i - count
  free : IsFree m (i - count) count
  stop : (i ≡ count) ⊎ ((count < i) × (phys_test (i - count - 1) m ≡ true))
  none_yet : (s : ℕ) → s + pages ≤ i → ¬ IsFree m s pages

-- What the search returns, when it looks at the pages below `limit`.
data Found (m : Mem) (pages limit : ℕ) : Option ℕ × Mem → Type 0 where
  fails : ((s : ℕ) → s + pages ≤ limit → ¬ IsFree m s pages) → Found m pages limit (none, m)
  takes :
      (s : ℕ)
      → s + pages ≤ limit
      → IsFree m s pages
      → ((r : ℕ) → r < s → ¬ IsFree m r pages)
      → Found m pages limit (some s, set_pages pages s m)

taken_step :
    {m : Mem} {pages i : ℕ} {start : Option ℕ} {count : ℕ}
    → Searching m pages i start count
    → phys_test i m ≡ true
    → Searching m pages (i + 1) none 0
taken_step {m} {pages} {i} s t = record {
  short = omega arith;
  fits = omega arith;
  begins = omega arith;
  free = λ p a b. absurd (omega arith);
  stop = inr (omega arith, ground (arith, t));
  none_yet = λ r h free. elim (dec_lt i (r + pages)) [
    | yes q ↦ cc (free i (omega arith) (omega arith), t)
    | no q ↦ s.none_yet r (omega arith) free
  ];
}

-- A run that ends with page `i` starts at or before the last taken page.
covers_taken :
    {m : Mem} {pages i : ℕ} {start : Option ℕ} {count : ℕ}
    → Searching m pages i start count
    → (r : ℕ) → r < i - count
    → i < r + pages
    → ¬ IsFree m r pages
covers_taken {m} {pages} {i} {start} {count} s r below ends free = blocked s.stop
  where
    blocked : (i ≡ count) ⊎ ((count < i) × (phys_test (i - count - 1) m ≡ true)) → ⊥
    blocked (inl e) = omega arith
    blocked (inr (p, t)) = cc (t, free (i - count - 1) (omega arith) (omega arith))

free_step :
    {m : Mem} {pages i : ℕ} {start : Option ℕ} {count : ℕ}
    → Searching m pages i start count
    → phys_test i m ≡ false
    → count + 1 ≢ pages
    → Searching m pages (i + 1) (some (start_or start i)) (count + 1)
free_step {m} {pages} {i} {start} {count} s t more = record {
  short = let h = s.short in omega arith;
  fits = omega arith;
  begins = omega arith;
  free =
      λ p a b. elim (ℕ_discrete p i) [ yes e ↦ cc | no ne ↦ s.free p (omega arith) (omega arith) ];
  stop = stopped s.stop;
  none_yet = λ r h free. elim (dec_lt i (r + pages)) [
    | yes q ↦ covers_taken s r (omega arith) (omega arith) free
    | no q ↦ s.none_yet r (omega arith) free
  ];
}
  where
    stopped :
        (i ≡ count) ⊎ ((count < i) × (phys_test (i - count - 1) m ≡ true))
        → (i + 1 ≡ count + 1)
          ⊎ ((count + 1 < i + 1) × (phys_test (i + 1 - (count + 1) - 1) m ≡ true))
    stopped (inl e) = inl (omega arith)
    stopped (inr (p, t')) =
        let e : i + 1 - (count + 1) - 1 ≡ i - count - 1 = omega arith in inr (omega arith, rw e t')

take_step :
    {m : Mem} {pages i limit : ℕ} {start : Option ℕ} {count : ℕ}
    → Searching m pages i start count
    → phys_test i m ≡ false
    → count + 1 ≡ pages
    → i < limit
    → Found m pages limit (some (start_or start i), set_pages pages (start_or start i) m)
take_step {m} {pages} {i} {limit} {start} {count} s t full h = rw s.begins (
    takes (i - count) (omega arith)
      (λ p a b. elim (ℕ_discrete p i) [ yes e ↦ cc | no ne ↦ s.free p (omega arith) (omega arith) ])
      (λ r below. s.none_yet r (omega arith)))

scan-Found :
    (left : ℕ) {m : Mem} {pages i limit : ℕ} {start : Option ℕ} {count : ℕ}
    → i + left ≡ limit
    → Searching m pages i start count
    → Found m pages limit (scan pages left i start count m)
unfolding scan
scan-Found zero {m} {pages} {i} {limit} e s = fails (λ r h. s.none_yet r (omega arith))
scan-Found (suc left) {m} {pages} {i} {limit} {start} {count} e s =
    elim (Bool-cases (phys_test i m)) [
      | inl t ↦ rw (t, scan) (scan-Found left (omega arith) (taken_step s t))
      | inr t ↦
          rw (t, scan)
            (elim (Bool-cases (count + 1 == pages)) [
              | inl full ↦ rw (full, scan) (take_step s t (ground arith) (omega arith))
              | inr more ↦
                  rw (more, scan) (scan-Found left (omega arith) (free_step s t (ground arith)))
            ])
    ]

Searching-start : (m : Mem) (n : ℕ) → Searching m (suc n) 0 none 0
Searching-start m n = record {
  short = omega arith;
  fits = omega arith;
  begins = omega arith;
  free = λ p a b. absurd (omega arith);
  stop = inl refl;
  none_yet = λ r h. absurd (omega arith);
}

-- What a call of `alloc_phys` for `n` pages does: NULL and nothing changed where there is no free
-- run; otherwise the first free run is taken, and no other page.
abbrev pub FirstFit : Mem → ℕ → ℕ × Mem → Type 0
FirstFit m n (a, m') =
    (a ≡ 0) × (m' ≡ m) × ((s : ℕ) → s + n ≤ max_pages → ¬ IsFree m s n)
    ⊎ ((s : ℕ) × (a ≡ s * page_size)
        × (0 < s)
        × (s + n ≤ max_pages)
        × IsFree m s n
        × ((r : ℕ) → r < s → ¬ IsFree m r n)
        × ((p : ℕ) → phys_test p m' ≡ (in_run s n p || phys_test p m)))

Found-FirstFit :
    {m : Mem} {n : ℕ} {out : Option ℕ × Mem}
    → AreBytes m
    → phys_test 0 m ≡ true
    → 0 < n
    → Found m n max_pages out
    → FirstFit m n (address out.0, out.1)
unfolding address
Found-FirstFit b taken h (fails none_yet) = inl (refl, refl, none_yet)
Found-FirstFit {m} {n} b taken h (takes zero fits free first) =
    cc (free 0 (omega arith) (omega arith), taken)
Found-FirstFit {m} {n} b taken h (takes (suc s) fits free first) =
    inr (suc s, refl, omega arith, fits, free, first, λ p. test-set_pages n (suc s) p m b)

-- With page 0 taken, as `init_phys` leaves it, so that no run starts at NULL: a request for `n`
-- pages gets the first run of `n` free pages below the limit, and marks it and nothing else; it
-- gets NULL exactly where there is no such run.
pub alloc_phys-FirstFit :
    (n : ℕ) (m : Mem)
    → AreBytes m
    → phys_test 0 m ≡ true
    → 0 < n
    → FirstFit m n (alloc_phys (pos n) m)
unfolding alloc_phys
alloc_phys-FirstFit zero m b taken h = absurd (omega arith)
alloc_phys-FirstFit (suc n) m b taken h =
    Found-FirstFit b taken h (scan-Found max_pages (omega arith) (Searching-start m n))

free-Found :
    {m : Mem} {n : ℕ} {out : Option ℕ × Mem} (p : ℕ)
    → AreBytes m
    → phys_test 0 m ≡ true
    → 0 < n
    → Found m n max_pages out
    → phys_test p (free_phys (address out.0) (pos n) out.1) ≡ phys_test p m
unfolding address free_phys
free-Found p b taken h (fails none_yet) = refl
free-Found p b taken h (takes zero fits free first) = cc (free 0 (omega arith) (omega arith), taken)
free-Found {m} {n} p b taken h (takes (suc s) fits free first) =
    let e : suc s * page_size / page_size ≡ suc s = omega arith in
    rw e (
      ground (
        arith,
        test-clear_pages n (suc s) p (set_pages n (suc s) m) (set_pages-AreBytes n (suc s) m b),
        test-set_pages n (suc s) p m b,
        free p,
      ))

-- In a bitmap of bytes in which page 0 is taken, as `init_phys` leaves it: freeing what was just
-- allocated, for a positive number of pages, leaves every page as it was before, whether or not the
-- request was granted.
pub free_phys-alloc_phys :
    (n : ℕ) (m : Mem) (p : ℕ)
    → AreBytes m
    → phys_test 0 m ≡ true
    → 0 < n
    → let (a, m') = alloc_phys (pos n) m in phys_test p (free_phys a (pos n) m') ≡ phys_test p m
unfolding alloc_phys
free_phys-alloc_phys zero m p b taken h = absurd (omega arith)
free_phys-alloc_phys (suc n) m p b taken h =
    free-Found p b taken h (scan-Found max_pages (omega arith) (Searching-start m n))
