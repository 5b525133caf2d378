-- ===== src/Fs/Access.antt =====
-- fs.c: the operations that read or write a whole file or a part of it, for a path below the mount
-- point. `-1` is a negative number of ℤ, and a result `none` is a search or a loop that has not ended
-- within its bound.
pub mod Reading
mod Tests
use calculatoros.Prelude.{
  ℕ, zero, suc, ◌+◌, ◌-◌, ◌^◌, Bool, true, false, Option, none, some, List, [], ◌∷◌, ◌++◌, ◌==◌,
  ltb, leb, if◌then◌else◌, min, length, get_or,
}
use calculatoros.Prelude.Int.{ℤ, pos, negsuc}
use calculatoros.CString.{ascii}
use calculatoros.Memory.{Mem, from}
use calculatoros.Memory.Words.{load32}
use calculatoros.Fs.Layout.{type_file, type_symlink, type_of, size_of, symlink_target_of}
use calculatoros.Fs.Device.{Device}
use calculatoros.Fs.State.{Fs}
use calculatoros.Fs.Inode.{load_inode}
use calculatoros.Fs.Data.{read_file_data}
use calculatoros.Fs.Data.Write.{write_file_data}
use calculatoros.Fs.Lookup.{Lookup, found, missing, out_of_fuel, find_inode, string_at}

abbrev pub minus_one_int : ℤ
minus_one_int = negsuc 0

-- A `uint32_t` as an `int`.
unfoldable pub as_int : ℕ → ℤ
as_int n = if ltb n (2 ^ 31) then pos n else negsuc (2 ^ 32 - 1 - n)

-- The `n` bytes from the address `a` on.
unfoldable pub bytes_at : ℕ → Mem → ℕ → List ℕ
bytes_at zero m a = []
bytes_at (suc n) m a = m a ∷ bytes_at n m (a + 1)

-- What a round prints, in front of what the next ones print.
unfoldable pub in_front_of : ℕ → Mem → Option (List ℕ) → Option (List ℕ)
in_front_of bytes out none = none
in_front_of bytes out (some text) = some (bytes_at bytes out 0 ++ text)

-- The bytes of `m` with those from `offset` on replaced.
abbrev pub with_tail : ℕ → Mem → Mem → Mem
with_tail offset m out a = if leb offset a then out (a - offset) else m a

-- The size up to which a file is read: an `int` size above 2 ^ 31 is negative, and nothing is read.
unfoldable pub int_size : ℕ → ℕ
int_size size = if ltb size (2 ^ 31) then size else 0

abbrev pub with_end : {D : Type 0} → Option (List ℕ) × Fs D → Option (List ℕ) × Fs D
with_end (none, fs) = (none, fs)
with_end (some text, fs) = (some (text ++ ascii "\n"), fs)

abbrev pub as_result : {D : Type 0} → Option (ℕ × Mem) × Fs D → Option (ℤ × Mem) × Fs D
as_result (none, fs) = (none, fs)
as_result (some (offset, buf), fs) = (some (pos offset, buf), fs)

module _ {D : Type 0} (dev : Device D) where
  -- Goes on with the loaded inode of the type `kind` that a path leads to, or returns `fail`; a
  -- search that does not end has no result.
  unfoldable pub on_kind :
      {A : Type 0} → ℕ → A → (ℕ → Fs D → Option A × Fs D) → Lookup × Fs D → Option A × Fs D
  on_kind kind fail k (missing, fs) = (some fail, fs)
  on_kind kind fail k (out_of_fuel, fs) = (none, fs)
  on_kind kind fail k (found id, fs) =
      let loaded = load_inode dev id fs in
      if load32 loaded.mem (type_of id) == kind then k id loaded else (some fail, loaded)

  -- `fs_write_file_len`.
  unfoldable pub write_file_len : ℕ → List ℕ → Mem → ℕ → Fs D → Option Bool × Fs D
  unfolding on_kind
  write_file_len fuel path text len fs =
      on_kind type_file false
        (λ id fs'.
          let (bytes_written, written) = write_file_data dev id text 0 len fs' in
          (some (bytes_written == len), written))
        (find_inode dev fuel path fs)

  -- `fs_write_file`, of a string without a NUL.
  unfoldable pub write_file : ℕ → List ℕ → List ℕ → Fs D → Option Bool × Fs D
  write_file fuel path text fs = write_file_len fuel path (λ i. get_or text i 0) (length text) fs

  -- The loop of `fs_read_file` with what it prints: `none` is no end within `rounds`. The buffer is
  -- used again in each round.
  unfoldable pub print_loop : ℕ → ℕ → ℕ → ℕ → Mem → Fs D → Option (List ℕ) × Fs D
  print_loop zero id size offset buffer fs = (none, fs)
  print_loop (suc rounds) id size offset buffer fs =
      let ((bytes, out), fs') = read_file_data dev id buffer offset 1024 fs in
      let (rest, fs'') = print_loop rounds id size (offset + bytes) out fs' in
      if leb size offset then (some [], fs) else (in_front_of bytes out rest, fs'')

  -- What follows the search of `fs_read_file`.
  unfoldable pub print_found : ℕ → Lookup × Fs D → Option (List ℕ) × Fs D
  print_found rounds (missing, fs) = (some (ascii "File not found\n"), fs)
  print_found rounds (out_of_fuel, fs) = (none, fs)
  print_found rounds (found id, fs) =
      let loaded = load_inode dev id fs in
      let size = int_size (load32 loaded.mem (size_of id)) in
      if load32 loaded.mem (type_of id) == type_file
      then with_end (print_loop rounds id size 0 loaded.stack loaded)
      else (some (ascii "Not a file\n"), loaded)

  -- `fs_read_file`, with what it prints.
  unfoldable pub read_file : ℕ → ℕ → List ℕ → Fs D → Option (List ℕ) × Fs D
  read_file rounds fuel path fs = print_found rounds (find_inode dev fuel path fs)

  -- `fs_get_file_size`.
  unfoldable pub get_file_size : ℕ → List ℕ → Fs D → Option ℤ × Fs D
  get_file_size fuel path fs =
      on_kind type_file minus_one_int (λ id fs'. (some (as_int (load32 fs'.mem (size_of id))), fs'))
        (find_inode dev fuel path fs)

  -- The loop of `fs_read_file_to_buf`, with the offset that it returns and the buffer.
  unfoldable pub copy_loop : ℕ → ℕ → ℕ → ℕ → Mem → Fs D → Option (ℕ × Mem) × Fs D
  copy_loop zero id size offset buf fs = (none, fs)
  copy_loop (suc rounds) id size offset buf fs =
      let ((bytes, out), fs') = read_file_data dev id (from buf offset) offset (size - offset) fs in
      let buf' = with_tail offset buf out in
      let rest = copy_loop rounds id size (offset + bytes) buf' fs' in
      if leb size offset
      then (some (offset, buf), fs)
      else if bytes == 0
      then (some (offset, buf'), fs')
      else rest

  -- `fs_read_file_to_buf`, for a `max_len` that is not negative.
  unfoldable pub read_file_to_buf : ℕ → ℕ → List ℕ → Mem → ℕ → Fs D → Option (ℤ × Mem) × Fs D
  read_file_to_buf rounds fuel path buf max_len fs =
      on_kind type_file (minus_one_int, buf)
        (λ id fs'.
          as_result
            (copy_loop rounds id (min (int_size (load32 fs'.mem (size_of id))) max_len) 0 buf fs'))
        (find_inode dev fuel path fs)

  -- `fs_read_file_range`, for an offset and a size that are not negative.
  unfoldable pub read_file_range : ℕ → List ℕ → ℕ → Mem → ℕ → Fs D → Option (ℤ × Mem) × Fs D
  read_file_range fuel path offset buf size fs =
      on_kind type_file (minus_one_int, buf)
        (λ id fs'.
          let file_size = int_size (load32 fs'.mem (size_of id)) in
          let wanted = if ltb file_size (offset + size) then file_size - offset else size in
          let ((bytes, out), read) = read_file_data dev id buf offset wanted fs' in
          if leb file_size offset
          then (some (pos 0, buf), fs')
          else (some (as_int bytes, out), read))
        (find_inode dev fuel path fs)

  -- `fs_readlink`, with the string that is copied to `buf`, if it returns 1.
  unfoldable pub readlink : ℕ → List ℕ → Fs D → Option (Option (List ℕ)) × Fs D
  readlink fuel path fs =
      on_kind type_symlink none
        (λ id fs'. (some (some (string_at fs'.mem (symlink_target_of id) 256)), fs'))
        (find_inode dev fuel path fs)
