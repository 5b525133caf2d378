-- ===== src/Fs/Data/Read.antt =====
-- What `read_file_data` reads.
use calculatoros.Prelude.{
  ℕ, zero, suc, ◌+◌, ◌-◌, ◌*◌, ◌/◌, ◌%◌, ◌^◌, ◌≤◌, ◌<◌, ◌≡◌, ◌≢◌, refl, ap, sym, ◌∙◌, true, false,
  Option, none, some, ltb, leb, ◌==◌, min, arith, Bool-cases, inl, inr, dec_lt,
}
use calculatoros.Memory.{Mem, memcpy, from}
use calculatoros.Memory.Copy.{memcpy_inside, memcpy_outside}
use calculatoros.Memory.Words.{load32}
use calculatoros.Fs.Layout.{data_start, minus_one, size_of}
use calculatoros.Fs.Device.{Device}
use calculatoros.Fs.State.{Fs, sector, dev_read}
use calculatoros.Fs.Inode.{is_loaded}
use calculatoros.Fs.Inode.Cache.{load_inode_loaded}
use calculatoros.Fs.Data.Contents.{file_byte, file_block, IsMapped, block_number_lem}
use calculatoros.Fs.Data.{
  block_number, read_loop, read_block, clipped, read_file_data, blocks_of_file,
}

module _ {D : Type 0} (dev : Device D) (fs : Fs D) (inode_num : ℕ) where
  -- The byte at the offset `k` of the block `b`, or 0 where there is no block.
  byte_of : Option ℕ → ℕ → ℕ
  byte_of none k = 0
  byte_of (some b) k = dev_read dev fs (sector data_start b) fs.stack k

  -- The byte at the position `p`, by way of `block_number`.
  read_byte : ℕ → ℕ
  unfolding byte_of
  read_byte p = byte_of (block_number dev fs inode_num (p / 512)) (p % 512)

  read_byte_at :
      (i k b : ℕ)
      → block_number dev fs inode_num i ≡ some b
      → k < 512
      → read_byte (i * 512 + k) ≡ dev_read dev fs (sector data_start b) fs.stack k
  unfolding read_byte byte_of
  read_byte_at i k b e h =
      let q : (i * 512 + k) / 512 ≡ i = omega arith in
      let r : (i * 512 + k) % 512 ≡ k = omega arith in rw (q, r) (ap (λ o. byte_of o k) e)

  -- There is a block for each byte from `lo` to `hi`.
  abbrev HasBlocks : ℕ → ℕ → Type 0
  HasBlocks lo hi = (p : ℕ) → lo ≤ p → p < hi → block_number dev fs inode_num (p / 512) ≢ none

  -- What the loop gives: all of the `size` bytes, those before `done` kept, and the others those of
  -- the file from the position `pos` on.
  Reads : ℕ → ℕ → ℕ → Mem → ℕ × Mem → Type 0
  Reads pos done size buffer (n, out) =
      (n ≡ size)
      × ((j : ℕ) → j < done → out j ≡ buffer j)
      × ((j : ℕ) → done ≤ j → j < size → out j ≡ read_byte (pos + (j - done)))

  -- One round, if the rest of the loop does its part.
  read_block-Reads :
      (i start done size : ℕ) (buffer : Mem) (rest : ℕ → Mem → ℕ × Mem) (o : Option ℕ)
      → block_number dev fs inode_num i ≡ o
      → start < 512
      → done < size
      → HasBlocks (i * 512 + start) (i * 512 + start + (size - done))
      → ((done' : ℕ) (buffer' : Mem)
          → done' ≡ done + min (512 - start) (size - done)
          → Reads ((i + 1) * 512 + 0) done' size buffer' (rest done' buffer'))
      → Reads (i * 512 + start) done size buffer (read_block dev fs start done size buffer rest o)
  unfolding read_block Reads read_byte byte_of
  read_block-Reads i start done size buffer rest none e s d mapped ih =
      let q : (i * 512 + start) / 512 ≡ i = omega arith in
      absurd (mapped (i * 512 + start) (omega arith) (omega arith) (rw q e))
  read_block-Reads i start done size buffer rest (some b) e s d mapped ih =
      let copy = min (512 - start) (size - done) in
      let bytes = dev_read dev fs (sector data_start b) fs.stack in
      let next = memcpy buffer done (from bytes start) copy in
      let (count, before, later) = ih (done + copy) next refl in
      (
        count,
        λ j h.
            before j (omega arith) ∙ memcpy_outside buffer done (from bytes start) copy j (inl h),
        λ j h k. elim (dec_lt j (done + copy)) [
          | yes here ↦
              let k' = j - done in
              let at : done + k' ≡ j = omega arith in
              let there : i * 512 + start + k' ≡ i * 512 + (start + k') = omega arith in
              before j here
              ∙ ap next (sym at)
              ∙ memcpy_inside buffer done (from bytes start) copy k' (omega arith)
              ∙ sym (ap read_byte there ∙ read_byte_at i (start + k') b e (omega arith))
          | no after ↦
              let at : (i + 1) * 512 + 0 + (j - (done + copy)) ≡ i * 512 + start + (j - done) =
                omega arith in
              later j (omega arith) k ∙ ap read_byte at
        ],
      )

  read_loop-Reads :
      (left i start done size : ℕ) (buffer : Mem)
      → start < 512
      → done ≤ size
      → i * 512 + start + (size - done) ≤ (i + left) * 512
      → HasBlocks (i * 512 + start) (i * 512 + start + (size - done))
      → Reads
          (i * 512 + start)
          done
          size
          buffer
          (read_loop dev fs inode_num left i start done size buffer)
  unfolding read_loop Reads
  read_loop-Reads zero i start done size buffer s d room mapped =
      (omega arith, λ j h. refl, λ j h k. absurd (omega arith))
  read_loop-Reads (suc left) i start done size buffer s d room mapped =
      elim (Bool-cases (leb size done)) [
        | inl y ↦ rw y (ground arith, λ j h. refl, λ j h k. absurd (ground arith))
        | inr f ↦
            let lt : done < size = ground arith in
            rw f (
              read_block-Reads i start done size buffer
                (λ done' buffer'. read_loop dev fs inode_num left (i + 1) 0 done' size buffer')
                (block_number dev fs inode_num i) refl s lt mapped
                (λ done' buffer' e.
                  read_loop-Reads left (i + 1) 0 done' size buffer' (omega arith) (omega arith)
                    (omega arith) (λ p lo hi. mapped p (omega arith) (omega arith))))
      ]

  -- Both agree in the first 140 blocks.
  read_byte-eq-file_byte :
      (p : ℕ) → p < blocks_of_file * 512 → read_byte p ≡ file_byte dev fs inode_num p
  unfolding read_byte byte_of file_byte
  read_byte-eq-file_byte p h =
      rw (block_number_lem dev fs inode_num (p / 512) (omega arith))
        (elim (Bool-cases (file_block dev fs inode_num (p / 512) == minus_one)) [
          | inl y ↦ rw y refl
          | inr n ↦ rw n refl
        ])

  HasBlocks-of_IsMapped :
      (lo hi : ℕ) → hi ≤ blocks_of_file * 512 → IsMapped dev fs inode_num lo hi → HasBlocks lo hi
  HasBlocks-of_IsMapped lo hi h mapped p l u e =
      let some_block = mapped p l u in
      let at = block_number_lem dev fs inode_num (p / 512) (omega arith) in ground arith

-- The file with a loaded inode and the bytes that a read should give of it: `size` bytes from
-- `offset` on, or those up to the end.
pub record IsReadable {D : Type 0} (dev : Device D) (fs : Fs D) (inode_num offset size : ℕ)
    : Type 0 where
  pub loaded : is_loaded fs.mem inode_num ≡ true
  pub inside : offset < load32 fs.mem (size_of inode_num)
  pub no_wrap : offset + size < 2 ^ 32
  pub end_fits : load32 fs.mem (size_of inode_num) ≤ blocks_of_file * 512
  pub mapped : IsMapped dev fs inode_num offset (load32 fs.mem (size_of inode_num))

clipped_lem :
    (offset size end : ℕ)
    → offset < end
    → offset + size < 2 ^ 32
    → clipped offset size end ≡ min size (end - offset)
unfolding clipped
clipped_lem offset size end h w =
    let m : (offset + size) % 2 ^ 32 ≡ offset + size = omega arith in
    elim (Bool-cases (ltb end (offset + size))) [
      | inl y ↦ let l : end < offset + size = ground arith in rw (m, y) (omega arith)
      | inr n ↦ let l : offset + size ≤ end = ground arith in rw (m, n) (omega arith)
    ]

-- What is read of a file that is long enough.
looped :
    {D : Type 0} (dev : Device D) (fs : Fs D) (inode_num offset size : ℕ) (buffer : Mem)
    → IsReadable dev fs inode_num offset size
    → read_file_data dev inode_num buffer offset size fs ≡ (
      read_loop dev fs inode_num
          (140 - offset / 512)
          (offset / 512)
          (offset % 512)
          0
          (min size (load32 fs.mem (size_of inode_num) - offset))
          buffer,
      fs,
    )
unfolding read_file_data
looped dev fs inode_num offset size buffer h =
    let end = load32 fs.mem (size_of inode_num) in
    let inside = h.inside in
    let before : leb end offset ≡ false = ground arith in
    rw
      (
        load_inode_loaded dev inode_num fs h.loaded,
        before,
        clipped_lem offset size end h.inside h.no_wrap,
      )
      refl

-- `read_file_data` returns `size`, or what is left of the file from `offset` on, if that is less,
-- the buffer holds just these bytes of the file, whether they stand in direct or in indirect blocks,
-- and the file system is as before. The inode is loaded, the offset is in the file, the offset and
-- `size` together are below 2 ^ 32, the file has at most 140 blocks, and each of its bytes from the
-- offset on has a block.
pub read_file_data-file_byte :
    {D : Type 0} (dev : Device D) (fs : Fs D) (inode_num offset size : ℕ) (buffer : Mem)
    → IsReadable dev fs inode_num offset size
    → let ((count, out), fs') = read_file_data dev inode_num buffer offset size fs in
      (count ≡ min size (load32 fs.mem (size_of inode_num) - offset))
      × ((j : ℕ) → j < count → out j ≡ file_byte dev fs inode_num (offset + j))
      × (fs' ≡ fs)
unfolding Reads
read_file_data-file_byte dev fs inode_num offset size buffer h =
    let end = load32 fs.mem (size_of inode_num) in
    let size' = min size (end - offset) in
    let at : offset / 512 * 512 + offset % 512 ≡ offset = omega arith in
    let inside = h.inside in
    let fits = h.end_fits in
    let (count, before, rest) =
      read_loop-Reads dev fs inode_num (140 - offset / 512) (offset / 512) (offset % 512) 0 size'
        buffer (omega arith) (omega arith) (omega arith)
        (λ p lo hi.
          HasBlocks-of_IsMapped dev fs inode_num offset end fits h.mapped p (omega arith)
            (omega arith)) in
    rw (looped dev fs inode_num offset size buffer h) (
      count,
      λ j k.
          rest j (omega arith) (omega (arith, count))
          ∙ ap (read_byte dev fs inode_num) (omega arith)
          ∙ read_byte-eq-file_byte dev fs inode_num (offset + j) (omega (arith, count)),
      refl,
    )
