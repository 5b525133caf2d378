-- ===== src/Fs/Dir/Slots.antt =====
-- What putting a number into a free slot, or taking it out, does to the numbers in a block.
use calculatoros.Prelude.{
  ℕ, zero, suc, ◌+◌, ◌*◌, ◌<◌, ◌≤◌, ◌≡◌, ◌≢◌, ◌^◌, refl, ap, sym, ◌∙◌, inl, inr, true, false, none,
  some, List, [], ◌∷◌, ◌++◌, ltb, if◌then◌else◌, arith, Bool-cases, ℕ_discrete,
}
use calculatoros.Memory.{Mem}
use calculatoros.Memory.Words.{load32, load32-store32_self, load32-store32_ne}
use calculatoros.Fs.Layout.{minus_one, max_inodes}
use calculatoros.Fs.State.{valid_inode}
use calculatoros.Fs.Dir.{slot, set_slot, find_slot, collect, fresh_slots}

-- The valid numbers of the `left` slots from `i` on.
abbrev pub entries : ℕ → ℕ → Mem → List ℕ
entries zero i buf = []
entries (suc left) i buf =
    let rest = entries left (i + 1) buf in
    if valid_inode (slot buf i) then slot buf i ∷ rest else rest

-- The test on `count` never stops the loop.
pub collect-eq-entries :
    (left i count : ℕ) (buf : Mem)
    → count + left ≤ 128
    → collect left i count buf ≡ entries left i buf
unfolding collect valid_inode
collect-eq-entries zero i count buf h = refl
collect-eq-entries (suc left) i count buf h = ground (
  arith,
  collect-eq-entries left (i + 1) count buf (omega arith),
  collect-eq-entries left (i + 1) (count + 1) buf (omega arith),
)

-- Only the words looked at matter.
pub entries_ext :
    (left i : ℕ) (b b' : Mem)
    → ((j : ℕ) → i ≤ j → j < i + left → slot b j ≡ slot b' j)
    → entries left i b ≡ entries left i b'
entries_ext zero i b b' h = refl
entries_ext (suc left) i b b' h = rw (
  h i (omega arith) (omega arith),
  entries_ext left (i + 1) b b' (λ j p q. h j (omega arith) (omega arith)),
)

slot-set_slot_self : (b : Mem) (i v : ℕ) → v < 2 ^ 32 → slot (set_slot b i v) i ≡ v
slot-set_slot_self b i v h = load32-store32_self b (4 * i) v h

slot-set_slot_ne : (b : Mem) (i j v : ℕ) → i ≢ j → slot (set_slot b i v) j ≡ slot b j
slot-set_slot_ne b i j v h = load32-store32_ne b (4 * i) v (4 * j) (omega arith)

-- One more number, and every other where it was.
abbrev pub Inserted : ℕ → List ℕ → List ℕ → Type 0
Inserted c old new =
    (before after : List ℕ) × (old ≡ before ++ after) × (new ≡ before ++ (c ∷ after))

Inserted-cons : (c x : ℕ) (old new : List ℕ) → Inserted c old new → Inserted c (x ∷ old) (x ∷ new)
Inserted-cons c x old new (before, after, e, e') =
    (x ∷ before, after, ap (λ t. x ∷ t) e, ap (λ t. x ∷ t) e')

-- Two blocks that differ in one slot, which is free or invalid in the first.
entries_insert :
    (left i j c : ℕ) (b b' : Mem)
    → i ≤ j
    → j < i + left
    → valid_inode (slot b j) ≡ false
    → slot b' j ≡ c
    → valid_inode c ≡ true
    → ((k : ℕ) → k ≢ j → slot b k ≡ slot b' k)
    → Inserted c (entries left i b) (entries left i b')
entries_insert zero i j c b b' ge lt free put valid same = absurd (omega arith)
entries_insert (suc left) i j c b b' ge lt free put valid same = elim (ℕ_discrete i j) [
  | yes e ↦
      let rest = entries_ext left (j + 1) b b' (λ k p q. same k (omega arith)) in
      ([], entries left (j + 1) b, rw (e, free), rw (e, put, valid, rest))
  | no ne ↦
      let rest =
        entries_insert left (i + 1) j c b b' (omega arith) (omega arith) free put valid same in
      elim (Bool-cases (valid_inode (slot b i))) [
        | inl v ↦ rw (← same i ne, v) (Inserted-cons c (slot b i) _ _ rest)
        | inr v ↦ rw (← same i ne, v) rest
      ]
]

find_slot-some :
    (v left i j : ℕ) (buf : Mem)
    → find_slot v left i buf ≡ some j
    → (i ≤ j) × (j < i + left) × (slot buf j ≡ v)
unfolding find_slot
find_slot-some v zero i j buf h = cc
find_slot-some v (suc left) i j buf h = ground (arith, find_slot-some v left (i + 1) j buf)

pub find_slot-none :
    (v left i j : ℕ) (buf : Mem)
    → find_slot v left i buf ≡ none
    → i ≤ j
    → j < i + left
    → slot buf j ≢ v
unfolding find_slot
find_slot-none v zero i j buf h ge lt = absurd (omega arith)
find_slot-none v (suc left) i j buf h ge lt = ground (arith, find_slot-none v left (i + 1) j buf)

minus_one_invalid : valid_inode minus_one ≡ false
unfolding valid_inode
minus_one_invalid = refl

-- The block that `dir_add_child` writes lists one number more.
pub collect_add :
    (buf : Mem) (i c : ℕ)
    → find_slot minus_one 128 0 buf ≡ some i
    → c < max_inodes
    → Inserted c (collect 128 0 0 buf) (collect 128 0 0 (set_slot buf i c))
collect_add buf i c found h =
    let at = find_slot-some minus_one 128 0 i buf found in
    rw
      (
        collect-eq-entries 128 0 0 buf (omega arith),
        collect-eq-entries 128 0 0 (set_slot buf i c) (omega arith),
      )
      (entries_insert 128 0 i c buf (set_slot buf i c) at.0 at.1 (rw at.2 minus_one_invalid)
        (slot-set_slot_self buf i c (omega arith)) (unfold valid_inode in ground arith)
        (λ k ne. sym (slot-set_slot_ne buf i k c (λ e. ne (sym e)))))

-- The block that `dir_remove_child` writes lists one number less.
pub collect_remove :
    (buf : Mem) (i c : ℕ)
    → find_slot c 128 0 buf ≡ some i
    → c < max_inodes
    → Inserted c (collect 128 0 0 (set_slot buf i minus_one)) (collect 128 0 0 buf)
collect_remove buf i c found h =
    let at = find_slot-some c 128 0 i buf found in
    rw
      (
        collect-eq-entries 128 0 0 buf (omega arith),
        collect-eq-entries 128 0 0 (set_slot buf i minus_one) (omega arith),
      )
      (entries_insert 128 0 i c (set_slot buf i minus_one) buf at.0 at.1
        (rw (slot-set_slot_self buf i minus_one (omega arith)) minus_one_invalid) at.2
        (unfold valid_inode in ground arith)
        (λ k ne. slot-set_slot_ne buf i k minus_one (λ e. ne (sym e))))

entries_none :
    (left i : ℕ) (b : Mem)
    → ((j : ℕ) → i ≤ j → j < i + left → valid_inode (slot b j) ≡ false)
    → entries left i b ≡ []
entries_none zero i b h = refl
entries_none (suc left) i b h = rw (
  h i (omega arith) (omega arith),
  entries_none left (i + 1) b (λ j p q. h j (omega arith) (omega arith)),
)

entries_head :
    (left i : ℕ) (b : Mem) (c : ℕ)
    → slot b i ≡ c
    → valid_inode c ≡ true
    → ((j : ℕ) → i + 1 ≤ j → j < i + 1 + left → valid_inode (slot b j) ≡ false)
    → entries (suc left) i b ≡ c ∷ []
entries_head left i b c e v h = rw (e, v, entries_none left (i + 1) b h)

free_word :
    (stack : Mem) (j : ℕ) → j < 128 → slot (λ a. if ltb a 512 then 255 else stack a) j ≡ minus_one
unfolding load32
free_word stack j h = ground arith

-- The block of a new directory lists its one child.
pub collect-fresh_slots :
    (stack : Mem) (c : ℕ) → c < max_inodes → collect 128 0 0 (fresh_slots c stack) ≡ c ∷ []
unfolding fresh_slots
collect-fresh_slots stack c h =
    let all : Mem = λ a. if ltb a 512 then 255 else stack a in
    collect-eq-entries 128 0 0 (set_slot all 0 c) (omega arith)
    ∙ entries_head 127 0 (set_slot all 0 c) c (slot-set_slot_self all 0 c (omega arith))
        (unfold valid_inode in ground arith)
        (λ j p q.
          rw (slot-set_slot_ne all 0 j c (omega arith), free_word stack j (omega arith))
            minus_one_invalid)

slot_ext : (b b' : Mem) (j : ℕ) → ((k : ℕ) → k < 512 → b k ≡ b' k) → j < 128 → slot b j ≡ slot b' j
unfolding load32
slot_ext b b' j h lt = rw (
  h (4 * j) (omega arith),
  h (4 * j + 1) (omega arith),
  h (4 * j + 2) (omega arith),
  h (4 * j + 3) (omega arith),
)

-- Only the 512 bytes of the block matter.
pub collect_ext :
    (b b' : Mem) → ((k : ℕ) → k < 512 → b k ≡ b' k) → collect 128 0 0 b ≡ collect 128 0 0 b'
collect_ext b b' h =
    collect-eq-entries 128 0 0 b (omega arith)
    ∙ entries_ext 128 0 b b' (λ j p q. slot_ext b b' j h (omega arith))
    ∙ sym (collect-eq-entries 128 0 0 b' (omega arith))
