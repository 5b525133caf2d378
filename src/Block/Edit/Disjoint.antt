-- ===== src/Block/Edit/Disjoint.antt =====
-- The partitions of a disk stay apart.
use calculatoros.Prelude.{
  ℕ, zero, suc, ◌+◌, ◌-◌, ◌^◌, ◌≤◌, ◌<◌, ◌≡◌, ◌≢◌, ◌⊎◌, inl, inr, refl, ap, sym, ◌∙◌, true, false,
  some, List, [], ◌∷◌, set, get_or, length, ◌==◌, arith, Bool-cases, ℕ_discrete, subst,
}
use calculatoros.Block.{mbr_signature, MbrPartition, Mbr, no_part, part, is_used, linux_part}
use calculatoros.Block.Edit.{overlaps_any, sectors_of, with_part, without_part}

-- Two entries share no sector.
pub Apart : MbrPartition → MbrPartition → Type 0
Apart p q =
    (p.lba_start + p.sector_count ≤ q.lba_start) ⊎ (q.lba_start + q.sector_count ≤ p.lba_start)

-- The used entries end below 2 ^ 32, and no two of them share a sector.
pub record IsTable (parts : List MbrPartition) : Type 0 where
  pub ends :
      (i : ℕ)
      → is_used (get_or parts i no_part) ≡ true
      → (get_or parts i no_part).lba_start + (get_or parts i no_part).sector_count < 2 ^ 32
  pub apart :
      (i j : ℕ)
      → i ≢ j
      → is_used (get_or parts i no_part) ≡ true
      → is_used (get_or parts j no_part) ≡ true
      → Apart (get_or parts i no_part) (get_or parts j no_part)

pub get_or-set_self :
    (ps : List MbrPartition) (i : ℕ) (p : MbrPartition)
    → i < length ps
    → get_or (set ps i p) i no_part ≡ p
get_or-set_self [] i p h = ground arith
get_or-set_self (q ∷ ps) zero p h = refl
get_or-set_self (q ∷ ps) (suc i) p h = get_or-set_self ps i p (omega arith)

get_or-set_ne :
    (ps : List MbrPartition) (i j : ℕ) (p : MbrPartition)
    → i ≢ j
    → get_or (set ps i p) j no_part ≡ get_or ps j no_part
get_or-set_ne [] i j p h = refl
get_or-set_ne (q ∷ ps) zero zero p h = absurd (h refl)
get_or-set_ne (q ∷ ps) zero (suc j) p h = refl
get_or-set_ne (q ∷ ps) (suc i) zero p h = refl
get_or-set_ne (q ∷ ps) (suc i) (suc j) p h = get_or-set_ne ps i j p (λ e. h (ap suc e))

Apart-sym : (p q : MbrPartition) → Apart p q → Apart q p
unfolding Apart
Apart-sym p q h = ground arith

-- The entry `j` after the entry `i` has become `p`.
entry-set :
    (ps : List MbrPartition) (i j : ℕ) (p : MbrPartition)
    → i < length ps
    → (i ≡ j × get_or (set ps i p) j no_part ≡ p)
      ⊎ (i ≢ j × get_or (set ps i p) j no_part ≡ get_or ps j no_part)
entry-set ps i j p h = elim (ℕ_discrete i j) [
  | yes e ↦ inl (e, subst (λ k. get_or (set ps i p) k no_part ≡ p) e (get_or-set_self ps i p h))
  | no ne ↦ inr (ne, get_or-set_ne ps i j p ne)
]

-- A table with the entry `i` replaced: if the new entry is used, it must end in time, and be apart
-- from the others.
set-IsTable :
    (ps : List MbrPartition) (i : ℕ) (p : MbrPartition)
    → i < length ps
    → (is_used p ≡ true → p.lba_start + p.sector_count < 2 ^ 32)
    → (is_used p ≡ true
        → (j : ℕ) → is_used (get_or ps j no_part) ≡ true
        → Apart p (get_or ps j no_part))
    → IsTable ps
    → IsTable (set ps i p)
set-IsTable ps i p h e far t = record {
  ends = λ j u. elim (entry-set ps i j p h) [
    | inl (s, q) ↦
        subst (λ r. r.lba_start + r.sector_count < 2 ^ 32) (sym q)
          (e (subst (λ r. is_used r ≡ true) q u))
    | inr (ne, q) ↦
        subst (λ r. r.lba_start + r.sector_count < 2 ^ 32) (sym q)
          (t.ends j (subst (λ r. is_used r ≡ true) q u))
  ];
  apart = λ j k ne u v. elim (entry-set ps i j p h) [
    | inl (s, q) ↦ elim (entry-set ps i k p h) [
      | inl (s', q') ↦ absurd (ne (sym s ∙ s'))
      | inr (ne', q') ↦
          subst (λ r. Apart r (get_or (set ps i p) k no_part)) (sym q)
            (subst (λ r. Apart p r) (sym q')
              (far (subst (λ r. is_used r ≡ true) q u) k (subst (λ r. is_used r ≡ true) q' v)))
    ]
    | inr (ne', q) ↦ elim (entry-set ps i k p h) [
      | inl (s', q') ↦
          subst (λ r. Apart r (get_or (set ps i p) k no_part)) (sym q)
            (subst (λ r. Apart (get_or ps j no_part) r) (sym q')
              (Apart-sym p (get_or ps j no_part)
                (far (subst (λ r. is_used r ≡ true) q' v) j (subst (λ r. is_used r ≡ true) q u))))
      | inr (ne'', q') ↦
          subst (λ r. Apart r (get_or (set ps i p) k no_part)) (sym q)
            (subst (λ r. Apart (get_or ps j no_part) r) (sym q')
              (t.apart j k ne (subst (λ r. is_used r ≡ true) q u)
                (subst (λ r. is_used r ≡ true) q' v)))
    ]
  ];
}

-- What it takes for `create_mbr_partition` to write a record, and the table in it.
pub created :
    (mbr mbr' : Mbr) (part_num start size_mb : ℕ)
    → with_part mbr part_num start size_mb ≡ some mbr'
    → overlaps_any start (sectors_of size_mb) mbr.parts ≡ false
      × is_used (part mbr (part_num - 1)) ≡ false
      × mbr'.parts ≡ set mbr.parts (part_num - 1) (linux_part start (sectors_of size_mb))
      × mbr'.signature ≡ mbr_signature
unfolding with_part
created mbr mbr' part_num start size_mb e = elim (Bool-cases (is_used (part mbr (part_num - 1)))) [
  | inl y ↦ absurd (ground arith)
  | inr n ↦ elim (Bool-cases (overlaps_any start (sectors_of size_mb) mbr.parts)) [
    | inl y ↦ absurd (ground arith)
    | inr m ↦ (m, n, ground arith, ground arith)
  ]
]

-- Deleting a partition keeps the table free of overlaps.
pub without_part-IsTable :
    (mbr mbr' : Mbr) (part_num : ℕ)
    → length mbr.parts ≡ 4
    → 1 ≤ part_num
    → part_num ≤ 4
    → IsTable mbr.parts
    → without_part mbr part_num ≡ some mbr'
    → IsTable mbr'.parts
unfolding without_part
without_part-IsTable mbr mbr' part_num len lo hi t e =
    elim (Bool-cases ((part mbr (part_num - 1)).kind == 0)) [
      | inl y ↦ absurd (ground arith)
      | inr n ↦
          let parts : mbr'.parts ≡ set mbr.parts (part_num - 1) no_part = ground arith in
          subst (λ ps. IsTable ps) (sym parts)
            (set-IsTable mbr.parts (part_num - 1) no_part (omega arith) (λ u. ground arith)
              (λ u. ground arith) t)
    ]

set-set :
    (ps : List MbrPartition) (i : ℕ) (p q : MbrPartition)
    → get_or ps i no_part ≡ q
    → set (set ps i p) i q ≡ ps
set-set [] i p q e = refl
set-set (r ∷ ps) zero p q e = ap (λ s. s ∷ ps) (sym e)
set-set (r ∷ ps) (suc i) p q e = ap (λ s. r ∷ s) (set-set ps i p q e)

-- Deleting a partition right after its creation gives back the table, if its entry was cleared.
pub without_part-with_part :
    (mbr mbr' : Mbr) (part_num start size_mb : ℕ)
    → length mbr.parts ≡ 4
    → 1 ≤ part_num
    → part_num ≤ 4
    → part mbr (part_num - 1) ≡ no_part
    → with_part mbr part_num start size_mb ≡ some mbr'
    → without_part mbr' part_num ≡ some (record mbr' { parts = mbr.parts })
unfolding without_part
without_part-with_part mbr mbr' part_num start size_mb len lo hi cleared e =
    let (none_over, free, parts, signed) = created mbr mbr' part_num start size_mb e in
    let new = linux_part start (sectors_of size_mb) in
    let entry : part mbr' (part_num - 1) ≡ new =
      ap (λ ps. get_or ps (part_num - 1) no_part) parts
      ∙ get_or-set_self mbr.parts (part_num - 1) new (omega arith) in
    let used : ((part mbr' (part_num - 1)).kind == 0) ≡ false = rw entry refl in
    let back : set mbr'.parts (part_num - 1) no_part ≡ mbr.parts =
      ap (λ ps. set ps (part_num - 1) no_part) parts
      ∙ set-set mbr.parts (part_num - 1) new no_part cleared in
    rw (used, back) refl
