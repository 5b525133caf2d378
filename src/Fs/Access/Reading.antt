-- ===== src/Fs/Access/Reading.antt =====
-- What the operations on whole files read, and that their loops end.
use calculatoros.Prelude.{
  ℕ, zero, suc, ◌+◌, ◌-◌, ◌*◌, ◌^◌, ◌<◌, ◌≤◌, ◌≡◌, ◌≢◌, ◌∙◌, refl, ap, true, Bool-cases, inl, inr,
  Option, none, some, List, ◌++◌, ◌==◌, ltb, leb, min, arith,
}
use calculatoros.Memory.{Mem, from}
use calculatoros.Memory.Words.{load32}
use calculatoros.Fs.Layout.{size_of, type_of, type_file}
use calculatoros.Fs.Device.{Device}
use calculatoros.Fs.State.{Fs}
use calculatoros.Fs.Inode.{is_loaded, load_inode}
use calculatoros.Fs.Inode.Cache.{load_inode_loaded}
use calculatoros.Fs.Lookup.{Lookup, found, missing, out_of_fuel, find_inode}
use calculatoros.CString.{ascii}
use calculatoros.Fs.Data.{read_file_data, blocks_of_file}
use calculatoros.Fs.Data.Contents.{file_byte, IsMapped}
use calculatoros.Fs.Data.Read.{IsReadable, read_file_data-file_byte}
use calculatoros.Fs.Access.{
  bytes_at, with_tail, print_loop, copy_loop, in_front_of, on_kind, as_result, read_file,
  print_found, int_size, read_file_to_buf,
}

-- A loaded file of `size` bytes, each of which has a block.
pub record IsWhole {D : Type 0} (dev : Device D) (fs : Fs D) (id size : ℕ) : Type 0 where
  pub loaded : is_loaded fs.mem id ≡ true
  pub length_is : load32 fs.mem (size_of id) ≡ size
  pub fits : size ≤ blocks_of_file * 512
  pub mapped : IsMapped dev fs id 0 size

module _ {D : Type 0} (dev : Device D) (fs : Fs D) (id size : ℕ) (w : IsWhole dev fs id size) where
  readable : (offset n : ℕ) → offset < size → n ≤ 2 ^ 31 → IsReadable dev fs id offset n
  readable offset n h k =
      let len = w.length_is in
      let fits = w.fits in
      record {
        loaded = w.loaded;
        inside = omega arith;
        no_wrap = omega arith;
        end_fits = omega arith;
        mapped = λ p lo hi. w.mapped p (omega arith) (omega arith);
      }

-- Bytes that agree.
bytes_at_cong :
    (n : ℕ) (m m' : Mem) (a b : ℕ)
    → ((j : ℕ) → j < n → m (a + j) ≡ m' (b + j))
    → bytes_at n m a ≡ bytes_at n m' b
unfolding bytes_at
bytes_at_cong zero m m' a b h = refl
bytes_at_cong (suc n) m m' a b h =
    let first : m a ≡ m' b = ap m (omega arith) ∙ h 0 (omega arith) ∙ ap m' (omega arith) in
    let rest =
      bytes_at_cong n m m' (a + 1) (b + 1)
        (λ j k. ap m (omega arith) ∙ h (suc j) (omega arith) ∙ ap m' (omega arith)) in
    rw (first, rest) refl

bytes_at-append :
    (n k : ℕ) (m : Mem) (a : ℕ) → bytes_at n m a ++ bytes_at k m (a + n) ≡ bytes_at (n + k) m a
unfolding bytes_at
bytes_at-append zero k m a =
    let e : a + 0 ≡ a = omega arith in let e' : 0 + k ≡ k = omega arith in rw (e, e') refl
bytes_at-append (suc n) k m a =
    let e : a + suc n ≡ a + 1 + n = omega arith in
    let e' : suc n + k ≡ suc (n + k) = omega arith in rw (e, e', bytes_at-append n k m (a + 1)) refl

module _ {D : Type 0} (dev : Device D) where
  print_loop-text :
      (fs : Fs D) (id size : ℕ)
      → IsWhole dev fs id size
      → size < 2 ^ 31
      → (rounds offset : ℕ) (buffer : Mem) → size - offset < rounds
      → offset ≤ size
      → print_loop dev rounds id size offset buffer fs
        ≡ (some (bytes_at (size - offset) (file_byte dev fs id) offset), fs)
  unfolding print_loop bytes_at in_front_of
  print_loop-text fs id size w b zero offset buffer h k = elim h [ ]
  print_loop-text fs id size w b (suc rounds) offset buffer h k =
      elim (Bool-cases (leb size offset)) [
        | inl y ↦ (let e : size - offset ≡ 0 = ground arith in rw (y, e) refl)
        | inr n ↦
            (let before : offset < size = ground arith in
              let r = read_file_data dev id buffer offset 1024 fs in
              let (count, bytes, same) =
                read_file_data-file_byte dev fs id offset 1024 buffer
                  (readable dev fs id size w offset 1024 before (omega arith)) in
              let len = w.length_is in
              let count' : r.0.0 ≡ min 1024 (size - offset) = rw (← len) count in
              let go =
                print_loop-text fs id size w b rounds (offset + r.0.0) r.0.1 (omega arith)
                  (omega arith) in
              let shown : bytes_at r.0.0 r.0.1 0 ≡ bytes_at r.0.0 (file_byte dev fs id) offset =
                bytes_at_cong r.0.0 r.0.1 (file_byte dev fs id) 0 offset
                  (λ j l. ap r.0.1 (omega arith) ∙ bytes j l) in
              let all : r.0.0 + (size - (offset + r.0.0)) ≡ size - offset = omega arith in
              rw
                (
                  n,
                  same,
                  go,
                  shown,
                  bytes_at-append r.0.0 (size - (offset + r.0.0)) (file_byte dev fs id) offset,
                  all,
                )
                refl)
      ]

  -- The loop of `fs_read_file_to_buf` ends for each state of the file, a file with holes included:
  -- one round more than the bytes that are asked for is enough.
  pub copy_loop_ends :
      (rounds id size offset : ℕ) (buf : Mem) (fs : Fs D)
      → size - offset < rounds
      → (copy_loop dev rounds id size offset buf fs).0 ≢ none
  unfolding copy_loop
  copy_loop_ends zero id size offset buf fs h = elim h [ ]
  copy_loop_ends (suc rounds) id size offset buf fs h =
      let r = read_file_data dev id (from buf offset) offset (size - offset) fs in
      let go = copy_loop_ends rounds id size (offset + r.0.0) (with_tail offset buf r.0.1) r.1 in
      elim (Bool-cases (leb size offset)) [
        | inl y ↦ rw y (λ e. ground (arith, e))
        | inr n ↦ elim (Bool-cases (r.0.0 == 0)) [
          | inl z ↦ rw (n, z) (λ e. ground (arith, e))
          | inr nz ↦
              (let before : offset < size = ground arith in
                let more : 0 < r.0.0 = ground arith in rw (n, nz) (go (omega arith)))
        ]
      ]

  as_result_ends : (r : Option (ℕ × Mem) × Fs D) → r.0 ≢ none → (as_result r).0 ≢ none
  as_result_ends (none, fs) h = absurd (h refl)
  as_result_ends (some (offset, buf), fs) h = λ e. ground (arith, e)

  on_kind_ends :
      {A : Type 0} (kind : ℕ) (fail : A) (k : ℕ → Fs D → Option A × Fs D) (found_at : Lookup × Fs D)
      → found_at.0 ≢ out_of_fuel
      → ((id : ℕ) (fs : Fs D) → (k id fs).0 ≢ none)
      → (on_kind dev kind fail k found_at).0 ≢ none
  unfolding on_kind
  on_kind_ends kind fail k (missing, fs) ends h = λ e. ground (arith, e)
  on_kind_ends kind fail k (out_of_fuel, fs) ends h = absurd (ends refl)
  on_kind_ends kind fail k (found id, fs) ends h =
      let loaded = load_inode dev id fs in
      elim (Bool-cases (load32 loaded.mem (type_of id) == kind)) [
        | inl y ↦ rw y (h id loaded)
        | inr n ↦ rw n (λ e. ground (arith, e))
      ]

  -- `fs_read_file` prints exactly the bytes of the file, and a newline. The path leads to a loaded
  -- file each of whose bytes has a block; one round more than the file has bytes is enough.
  pub read_file-file_byte :
      (fs fs' : Fs D) (rounds fuel id size : ℕ) (path : List ℕ)
      → find_inode dev fuel path fs ≡ (found id, fs')
      → IsWhole dev fs' id size
      → load32 fs'.mem (type_of id) ≡ type_file
      → size < 2 ^ 31
      → size < rounds
      → read_file dev rounds fuel path fs
        ≡ (some (bytes_at size (file_byte dev fs' id) 0 ++ ascii "\n"), fs')
  unfolding read_file print_found int_size
  read_file-file_byte fs fs' rounds fuel id size path at w kind b r =
      let len = w.length_is in
      let none_done : size - 0 ≡ size = omega arith in
      let small : ltb size (2 ^ 31) ≡ true = ground arith in
      let file : (load32 fs'.mem (type_of id) == type_file) ≡ true = ground arith in
      rw
        (
          at,
          load_inode_loaded dev id fs' w.loaded,
          file,
          len,
          small,
          print_loop-text fs' id size w b rounds 0 fs'.stack (omega arith) (omega arith),
          none_done,
        )
        refl

  -- `fs_read_file_to_buf` returns for each path the search of which ends, and each state of the file
  -- system, whether its files have all their blocks or not: one round more than `max_len` is enough
  -- for its loop.
  pub read_file_to_buf_ends :
      (fs : Fs D) (rounds fuel max_len : ℕ) (path : List ℕ) (buf : Mem)
      → (find_inode dev fuel path fs).0 ≢ out_of_fuel
      → max_len < rounds
      → (read_file_to_buf dev rounds fuel path buf max_len fs).0 ≢ none
  unfolding read_file_to_buf
  read_file_to_buf_ends fs rounds fuel max_len path buf ends h =
      on_kind_ends type_file _ _ (find_inode dev fuel path fs) ends
        (λ id fs'. as_result_ends _ (copy_loop_ends rounds id _ 0 buf fs' (omega arith)))
