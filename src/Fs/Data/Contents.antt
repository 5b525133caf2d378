-- ===== src/Fs/Data/Contents.antt =====
-- The contents of a file, from the numbers of its blocks in order: the layout that `read_file_data`
-- reads.
use calculatoros.Prelude.{
  ℕ, zero, suc, ◌+◌, ◌-◌, ◌*◌, ◌/◌, ◌%◌, ◌≤◌, ◌<◌, ◌≡◌, ◌≢◌, ◌∙◌, refl, ap, List, [], ◌∷◌, ◌++◌,
  ◌==◌, ltb, length, get_or, replicate, if◌then◌else◌, Bool-cases, inl, inr, arith,
}
use calculatoros.Memory.{Mem}
use calculatoros.Memory.Words.{load32}
use calculatoros.Fs.Layout.{data_start, minus_one, max_blocks_per_file, block_of, indirect_of}
use calculatoros.Fs.Device.{Device}
use calculatoros.Fs.State.{Fs, sector, dev_read}
use calculatoros.Fs.Data.{as_block, indirect_entry, block_number}

-- The `n` words from the address `a` on.
unfoldable pub words : ℕ → Mem → ℕ → List ℕ
words zero m a = []
words (suc n) m a = load32 m a ∷ words n m (a + 4)

length-words : (n : ℕ) (m : Mem) (a : ℕ) → length (words n m a) ≡ n
unfolding words
length-words zero m a = refl
length-words (suc n) m a = ap suc (length-words n m (a + 4))

get_or-words :
    (n k d : ℕ) (m : Mem) (a : ℕ) → k < n → get_or (words n m a) k d ≡ load32 m (a + 4 * k)
unfolding words
get_or-words zero k d m a h = elim h [ ]
get_or-words (suc n) zero d m a h = ap (load32 m) (omega arith)
get_or-words (suc n) (suc k) d m a h =
    get_or-words n k d m (a + 4) (omega arith) ∙ ap (load32 m) (omega arith)

get_or-append_left :
    (xs ys : List ℕ) (k d : ℕ) → k < length xs → get_or (xs ++ ys) k d ≡ get_or xs k d
get_or-append_left [] ys k d h = elim h [ ]
get_or-append_left (x ∷ xs) ys zero d h = refl
get_or-append_left (x ∷ xs) ys (suc k) d h = get_or-append_left xs ys k d (omega arith)

get_or-append_right :
    (xs ys : List ℕ) (k d : ℕ) → length xs ≤ k → get_or (xs ++ ys) k d ≡ get_or ys (k - length xs) d
get_or-append_right [] ys k d h = ap (λ i. get_or ys i d) (omega arith)
get_or-append_right (x ∷ xs) ys zero d h = absurd (omega arith)
get_or-append_right (x ∷ xs) ys (suc k) d h =
    get_or-append_right xs ys k d (omega arith) ∙ ap (λ i. get_or ys i d) (omega arith)

get_or-replicate : (n k d : ℕ) → get_or (replicate n d) k d ≡ d
get_or-replicate zero k d = refl
get_or-replicate (suc n) zero d = refl
get_or-replicate (suc n) (suc k) d = get_or-replicate n k d

module _ {D : Type 0} (dev : Device D) (fs : Fs D) (inode_num : ℕ) where
  -- The 128 entries of the indirect block, -1 where the file has none.
  unfoldable pub indirect_words : List ℕ
  unfolding words
  indirect_words =
      let b = load32 fs.mem (indirect_of inode_num) in
      if b == minus_one
      then replicate 128 minus_one
      else words 128 (dev_read dev fs (sector data_start b) fs.stack) 0

  -- The numbers of the blocks of the file in order, the 12 of the inode and then those of the indirect
  -- block; -1 is no block.
  unfoldable pub file_blocks : List ℕ
  unfolding words indirect_words
  file_blocks = words 12 fs.mem (block_of inode_num 0) ++ indirect_words

  abbrev pub file_block : ℕ → ℕ
  file_block i = get_or file_blocks i minus_one

  -- The byte at the position `p` of the file.
  unfoldable pub file_byte : ℕ → ℕ
  unfolding file_blocks
  file_byte p =
      let b = file_block (p / 512) in
      if b == minus_one then 0 else dev_read dev fs (sector data_start b) fs.stack (p % 512)

  -- There is a block for each byte from `lo` to `hi`.
  abbrev pub IsMapped : ℕ → ℕ → Type 0
  IsMapped lo hi = (p : ℕ) → lo ≤ p → p < hi → file_block (p / 512) ≢ minus_one

  direct_block : (i : ℕ) → i < 12 → file_block i ≡ load32 fs.mem (block_of inode_num i)
  unfolding file_blocks
  direct_block i h =
      get_or-append_left (words 12 fs.mem (block_of inode_num 0)) indirect_words i minus_one
        (omega (arith, length-words 12 fs.mem (block_of inode_num 0)))
      ∙ get_or-words 12 i minus_one fs.mem (block_of inode_num 0) h
      ∙ ap (load32 fs.mem) (omega arith)

  later_block : (i : ℕ) → 12 ≤ i → file_block i ≡ get_or indirect_words (i - 12) minus_one
  unfolding file_blocks
  later_block i h =
      let len = length-words 12 fs.mem (block_of inode_num 0) in
      get_or-append_right (words 12 fs.mem (block_of inode_num 0)) indirect_words i minus_one
        (omega (arith, len))
      ∙ ap (λ k. get_or indirect_words k minus_one) (omega (arith, len))

  -- `block_number` looks in the right place.
  pub block_number_lem :
      (i : ℕ) → i < 140 → block_number dev fs inode_num i ≡ as_block (file_block i)
  unfolding block_number indirect_entry indirect_words
  block_number_lem i h = elim (Bool-cases (ltb i max_blocks_per_file)) [
    | inl y ↦ rw (y, direct_block i (ground arith)) refl
    | inr n ↦
        let b = load32 fs.mem (indirect_of inode_num) in
        let at = later_block i (ground arith) in
        elim (Bool-cases (b == minus_one)) [
          | inl none_there ↦ rw (n, at, none_there, get_or-replicate 128 (i - 12) minus_one) refl
          | inr there ↦
              let z : 0 + 4 * (i - 12) ≡ 4 * (i - 12) = omega arith in
              rw
                (
                  n,
                  at,
                  there,
                  get_or-words 128 (i - 12) minus_one
                      (dev_read dev fs (sector data_start b) fs.stack) 0 (ground arith),
                  z,
                )
                refl
        ]
  ]
