-- ===== src/Block/Edit/Register.antt =====
-- What `create_mbr_partition` leaves on the disk and in the lists.
use calculatoros.Prelude.{
  ℕ, zero, suc, ◌+◌, ◌-◌, ◌≤◌, ◌≡◌, inl, inr, refl, ap, sym, ◌∙◌, true, false, not, ◌&&◌, ◌||◌,
  Option, none, some, List, [], ◌∷◌, ◌++◌, set, get_or, length, ltb, if◌then◌else◌, arith,
  Bool-cases, subst,
}
use calculatoros.Block.{
  mbr_signature, MbrPartition, Mbr, Partition, Disks, Blocks, no_part, part, is_used, linux_part,
  add_partition, parts_of, read_parts,
}
use calculatoros.Block.Edit.{
  sectors_of, with_part, is_known, add_unknown, after_create, write_mbr, on_read, write_created,
  create_mbr_partition,
}
use calculatoros.Block.Edit.Disjoint.{created, get_or-set_self}

-- What the disks are relied on for: a table has four entries, and a write that succeeds is read
-- back.
pub record IsKeeping {S : Type 0} (disks : Disks S) : Type 0 where
  pub four : (s : S) (dev : ℕ) (mbr : Mbr) → disks.read s dev ≡ some mbr → length mbr.parts ≡ 4
  pub read-write :
      (s : S) (dev : ℕ) (mbr : Mbr)
      → length mbr.parts ≡ 4
      → (disks.write s dev mbr).0 ≡ true
      → disks.read (disks.write s dev mbr).1 dev ≡ some mbr

is_known-append :
    (dev start : ℕ) (ps qs : List Partition)
    → is_known dev start (ps ++ qs) ≡ (is_known dev start ps || is_known dev start qs)
unfolding is_known
is_known-append dev start [] qs = refl
is_known-append dev start (p ∷ ps) qs = ground (arith, is_known-append dev start ps qs)

module _ {S : Type 0} where
  -- One round of the loop keeps what is known, and makes a used entry known.
  round : ℕ → ℕ → MbrPartition → Blocks S → Blocks S
  round dev j p st =
      if is_used p && not (is_known dev p.lba_start st.partitions)
      then add_partition dev j p.lba_start p.sector_count st
      else st

  round_keeps :
      (dev j start : ℕ) (p : MbrPartition) (st : Blocks S)
      → is_known dev start st.partitions ≡ true
      → is_known dev start (round dev j p st).partitions ≡ true
  unfolding round add_partition
  round_keeps dev j start p st h =
      elim (Bool-cases (is_used p && not (is_known dev p.lba_start st.partitions))) [
        | inl y ↦ rw y (is_known-append dev start st.partitions _ ∙ ground arith)
        | inr n ↦ rw n h
      ]

  round_knows :
      (dev j : ℕ) (p : MbrPartition) (st : Blocks S)
      → is_used p ≡ true
      → is_known dev p.lba_start (round dev j p st).partitions ≡ true
  unfolding round add_partition is_known
  round_knows dev j p st u = elim (Bool-cases (is_known dev p.lba_start st.partitions)) [
    | inl y ↦ rw (u, y) y
    | inr n ↦ rw (u, n) (is_known-append dev p.lba_start st.partitions _ ∙ ground arith)
  ]

  add_unknown_keeps :
      (dev j start : ℕ) (ps : List MbrPartition) (st : Blocks S)
      → is_known dev start st.partitions ≡ true
      → is_known dev start (add_unknown dev j ps st).partitions ≡ true
  unfolding add_unknown round
  add_unknown_keeps dev j start [] st h = h
  add_unknown_keeps dev j start (p ∷ ps) st h =
      add_unknown_keeps dev (j + 1) start ps (round dev j p st) (round_keeps dev j start p st h)

  -- After the loop every used entry of the table is known.
  add_unknown_knows :
      (dev j i : ℕ) (ps : List MbrPartition) (st : Blocks S)
      → is_used (get_or ps i no_part) ≡ true
      → is_known dev (get_or ps i no_part).lba_start (add_unknown dev j ps st).partitions ≡ true
  unfolding add_unknown round
  add_unknown_knows dev j i [] st u = ground arith
  add_unknown_knows dev j zero (p ∷ ps) st u =
      add_unknown_keeps dev (j + 1) p.lba_start ps (round dev j p st) (round_knows dev j p st u)
  add_unknown_knows dev j (suc i) (p ∷ ps) st u =
      add_unknown_knows dev (j + 1) i ps (round dev j p st) u

  add_unknown_disks :
      (dev j : ℕ) (ps : List MbrPartition) (st : Blocks S)
      → (add_unknown dev j ps st).disks ≡ st.disks
  unfolding add_unknown add_partition
  add_unknown_disks dev j [] st = refl
  add_unknown_disks dev j (p ∷ ps) st =
      elim (Bool-cases (is_used p && not (is_known dev p.lba_start st.partitions))) [
        | inl y ↦ add_unknown_disks dev (j + 1) ps _ ∙ rw y refl
        | inr n ↦ add_unknown_disks dev (j + 1) ps _ ∙ rw n refl
      ]

-- What holds after a partition has been created: it is in the table on the disk, and known.
pub record IsCreated {S : Type 0} (disks : Disks S) (dev part_num start size_mb : ℕ) (st : Blocks S)
    : Type 0 where
  pub table : Mbr
  pub on_disk : disks.read st.disks dev ≡ some table
  pub entry : part table (part_num - 1) ≡ linux_part start (sectors_of size_mb)
  pub listed : is_known dev start st.partitions ≡ true

length-set : (ps : List MbrPartition) (i : ℕ) (p : MbrPartition) → length (set ps i p) ≡ length ps
length-set [] i p = refl
length-set (q ∷ ps) zero p = refl
length-set (q ∷ ps) (suc i) p = ap suc (length-set ps i p)

-- A table that `create_mbr_partition` may write.
record IsNew (mbr : Mbr) (part_num start size_mb : ℕ) : Type 0 where
  four_parts : length mbr.parts ≡ 4
  has_entry : part mbr (part_num - 1) ≡ linux_part start (sectors_of size_mb)
  signed : mbr.signature ≡ mbr_signature

with_part-IsNew :
    (mbr mbr' : Mbr) (part_num start size_mb : ℕ)
    → length mbr.parts ≡ 4
    → part_num ≤ 4
    → with_part mbr part_num start size_mb ≡ some mbr'
    → IsNew mbr' part_num start size_mb
with_part-IsNew mbr mbr' part_num start size_mb len hi e =
    let (none_over, free, parts, s) = created mbr mbr' part_num start size_mb e in
    let new = linux_part start (sectors_of size_mb) in
    record {
      four_parts = ap length parts ∙ length-set mbr.parts (part_num - 1) new ∙ len;
      has_entry =
          ap (λ ps. get_or ps (part_num - 1) no_part) parts
          ∙ get_or-set_self mbr.parts (part_num - 1) new (omega arith);
      signed = s;
    }

module _ {S : Type 0} (disks : Disks S) (r : IsKeeping disks) (dev part_num start size_mb : ℕ)
    (hi : part_num ≤ 4) where
  on_read-IsNew :
      (s : S) (o : Option Mbr) (mbr' : Mbr)
      → disks.read s dev ≡ o
      → on_read (λ mbr. with_part mbr part_num start size_mb) o ≡ some mbr'
      → IsNew mbr' part_num start size_mb
  unfolding on_read
  on_read-IsNew s none mbr' e h = absurd (ground arith)
  on_read-IsNew s (some mbr) mbr' e h =
      with_part-IsNew mbr mbr' part_num start size_mb (r.four s dev mbr e) hi h

  read_parts-some :
      (st : Blocks S) (mbr : Mbr)
      → disks.read st.disks dev ≡ some mbr
      → mbr.signature ≡ mbr_signature
      → read_parts disks dev st ≡ mbr.parts
  unfolding read_parts parts_of
  read_parts-some st mbr e s = ap parts_of e ∙ rw s refl

  registered-IsCreated :
      (st : Blocks S) (mbr : Mbr)
      → IsNew mbr part_num start size_mb
      → disks.read st.disks dev ≡ some mbr
      → IsCreated disks dev part_num start size_mb (after_create disks dev (true, st)).1
  unfolding after_create
  registered-IsCreated st mbr n e =
      let parts = read_parts-some st mbr e n.signed in
      let used : is_used (part mbr (part_num - 1)) ≡ true = rw (n.has_entry) refl in
      let at = ap (λ p. p.lba_start) n.has_entry in
      record {
        table = mbr;
        on_disk =
            ap (λ s. disks.read s dev) (add_unknown_disks dev 1 (read_parts disks dev st) st) ∙ e;
        entry = n.has_entry;
        listed =
            ap (λ ps. is_known dev start (add_unknown dev 1 ps st).partitions) parts
            ∙ subst (λ s. is_known dev s (add_unknown dev 1 mbr.parts st).partitions ≡ true) at
                (add_unknown_knows dev 1 (part_num - 1) mbr.parts st used);
      }

  written-IsCreated :
      (o : Option Mbr) (st : Blocks S)
      → ((mbr : Mbr) → o ≡ some mbr → IsNew mbr part_num start size_mb)
      → (write_created disks dev o st).0 ≡ true
      → IsCreated disks dev part_num start size_mb (write_created disks dev o st).1
  unfolding write_created write_mbr after_create
  written-IsCreated none st n h = absurd (ground arith)
  written-IsCreated (some mbr) st n h =
      let after = record st { disks = (disks.write st.disks dev mbr).1 } in
      elim (Bool-cases (disks.write st.disks dev mbr).0) [
        | inl y ↦
            subst
              (λ b.
                IsCreated disks dev part_num start size_mb (after_create disks dev (b, after)).1)
              (sym y)
              (registered-IsCreated after mbr (n mbr refl)
                (r.read-write st.disks dev mbr (n mbr refl).four_parts y))
        | inr f ↦
            let no : false ≡ true = subst (λ b. (after_create disks dev (b, after)).0 ≡ true) f h in
            absurd (ground arith)
      ]

-- Where `create_mbr_partition` reports success, on a disk that keeps what is written, the new
-- partition stands in the table on the disk, and a partition of the device that starts there is
-- listed.
pub create_mbr_partition-IsCreated :
    {S : Type 0} (disks : Disks S)
    → IsKeeping disks
    → (dev part_num start size_mb : ℕ) (st : Blocks S)
    → (create_mbr_partition disks dev part_num start size_mb st).0 ≡ true
    → IsCreated disks dev part_num start size_mb
        (create_mbr_partition disks dev part_num start size_mb st).1
unfolding create_mbr_partition
create_mbr_partition-IsCreated disks r dev part_num start size_mb st h =
    elim (Bool-cases (ltb part_num 1 || ltb 4 part_num)) [
      | inl bad ↦ absurd (ground arith)
      | inr ok ↦
          let table =
            on_read (λ mbr. with_part mbr part_num start size_mb) (disks.read st.disks dev) in
          let c : create_mbr_partition disks dev part_num start size_mb st
              ≡ write_created disks dev table st =
            rw ok refl in
          subst (λ x. IsCreated disks dev part_num start size_mb x.1) (sym c)
            (written-IsCreated disks r dev part_num start size_mb (ground arith) table st
              (λ mbr e.
                on_read-IsNew disks r dev part_num start size_mb (ground arith) st.disks
                  (disks.read st.disks dev) mbr refl e)
              (subst (λ x. x.0 ≡ true) c h))
    ]
