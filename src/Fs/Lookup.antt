-- ===== src/Fs/Lookup.antt =====
-- Finding and creating inodes in fs.c: `find_inode` and `create_inode`. A path and a symbolic link's
-- target have fewer than 256 bytes, so that they fit the buffers of `MAX_PATH` bytes.
pub mod Fuel
pub mod Child
pub mod Blocks
mod Tests
use calculatoros.Prelude.{
  ℕ, zero, suc, ◌+◌, ◌-◌, ◌*◌, Bool, true, false, not, ◌&&◌, ◌||◌, Option, none, some, List, [],
  ◌∷◌, ◌==◌, ltb, if◌then◌else◌,
}
use calculatoros.CString.{ascii, head, tail, streq}
use calculatoros.Memory.{Mem, store}
use calculatoros.Memory.Words.{load32, store32}
use calculatoros.Fs.Layout.{
  max_blocks_per_file, minus_one, type_file, type_dir, type_symlink, inode_at, type_of, size_of,
  parent_of, first_child_block_of, block_of, indirect_of, symlink_target_of, link_count_of,
  dirty_at, current_dir_at,
}
use calculatoros.Fs.Device.{Device}
use calculatoros.Fs.State.{Fs, valid_inode}
use calculatoros.Fs.Bitmaps.{alloc_inode}
use calculatoros.Fs.Inode.{load_inode, save_inode}
use calculatoros.Fs.Dir.{get_children, dir_add_child}

-- What `find_inode` returns, -1 being `missing`. The C code has no bound on the links it follows;
-- the model has, and says so where it is reached.
pub data Lookup : Type 0 where
  found : ℕ → Lookup
  missing : Lookup
  out_of_fuel : Lookup

-- `streq(m + a, s)`
unfoldable pub same_string : Mem → ℕ → List ℕ → Bool
same_string m a [] = m a == 0
same_string m a (c ∷ s) = m a == c && same_string m (a + 1) s

-- The string at the address `a`, of at most `room` bytes.
unfoldable pub string_at : Mem → ℕ → ℕ → List ℕ
string_at m a zero = []
string_at m a (suc room) =
    let rest = string_at m (a + 1) room in if m a == 0 then [] else m a ∷ rest

-- A character in front of the first segment.
abbrev pub in_front : ℕ → List (List ℕ) → List (List ℕ)
in_front c [] = (c ∷ []) ∷ []
in_front c (t ∷ ts) = (c ∷ t) ∷ ts

-- The path between its slashes.
unfoldable pub segments : List ℕ → List (List ℕ)
segments [] = [] ∷ []
segments (c ∷ s) = if c == b'/' then [] ∷ segments s else in_front c (segments s)

-- `next != 0`: a slash follows the token.
abbrev pub has_next : List (List ℕ) → Bool
has_next [] = false
has_next (t ∷ ts) = true

-- `!*token`: nothing is left of the path.
unfoldable pub at_end : List ℕ → List (List ℕ) → Bool
at_end [] ts = not (has_next ts)
at_end (c ∷ t) ts = false

module _ {D : Type 0} (dev : Device D) where
  -- The loop over the children that looks for a name.
  unfoldable pub find_child : List ℕ → List ℕ → Fs D → Option ℕ × Fs D
  find_child name [] fs = (none, fs)
  find_child name (c ∷ cs) fs =
      let fs' = load_inode dev c fs in
      let rest = find_child name cs fs' in
      if same_string fs'.mem (inode_at c) name then (some c, fs') else rest

  -- The child of a directory with the name.
  unfoldable pub child_of : List ℕ → ℕ → Fs D → Option ℕ × Fs D
  child_of name cur fs =
      let children = get_children dev cur (load_inode dev cur fs) in
      find_child name children.0 children.1

  -- What follows the resolution of a link: it must lead to a directory.
  unfoldable pub enter : (ℕ → Fs D → Lookup × Fs D) → Lookup × Fs D → Lookup × Fs D
  enter go (missing, fs) = (missing, fs)
  enter go (out_of_fuel, fs) = (out_of_fuel, fs)
  enter go (found r, fs) =
      let fs' = load_inode dev r fs in
      if load32 fs'.mem (type_of r) == type_dir then go r fs' else (missing, fs')

  -- What follows the search among the children: `resolve` finds the target of a link on the way.
  -- An absolute and a relative target are resolved alike.
  unfoldable pub descend :
      (List ℕ → Fs D → Lookup × Fs D)
      → (ℕ → Fs D → Lookup × Fs D)
      → Bool
      → Option ℕ × Fs D
      → Lookup × Fs D
  descend resolve go next (none, fs) = (missing, fs)
  descend resolve go next (some c, fs) =
      if next && load32 fs.mem (type_of c) == type_symlink
      then enter go (resolve (string_at fs.mem (symlink_target_of c) 256) fs)
      else go c fs

  -- The loop of `find_inode` over the segments that are left.
  unfoldable pub walk : (List ℕ → Fs D → Lookup × Fs D) → List (List ℕ) → ℕ → Fs D → Lookup × Fs D
  walk resolve [] cur fs = (found cur, fs)
  walk resolve (t ∷ ts) cur fs =
      let go = walk resolve ts in
      if at_end t ts
      then (found cur, fs)
      else if streq t (ascii ".")
      then go cur fs
      else if streq t (ascii "..")
      then go (load32 (load_inode dev cur fs).mem (parent_of cur)) (load_inode dev cur fs)
      else descend resolve go (has_next ts) (child_of t cur fs)

  unfoldable pub find_inode : ℕ → List ℕ → Fs D → Lookup × Fs D
  find_inode zero path fs = (out_of_fuel, fs)
  find_inode (suc fuel) path fs =
      let current = load32 fs.mem current_dir_at in
      let resolve = find_inode fuel in
      if head path == 0
      then (found current, fs)
      else if head path == b'/'
      then walk resolve (segments (tail path)) 0 fs
      else walk resolve (segments path) current fs

-- `in->name`, of at most 31 bytes and a NUL.
unfoldable pub store_name : ℕ → ℕ → List ℕ → Mem → Mem
store_name a room [] m = store m a 0
store_name a zero (c ∷ s) m = store m a 0
store_name a (suc room) (c ∷ s) m = store_name (a + 1) room s (store m a c)

-- `in->blocks[i] = -1` for the `left` blocks from `i` on.
unfoldable pub no_blocks : ℕ → ℕ → ℕ → Mem → Mem
no_blocks id zero i m = m
no_blocks id (suc left) i m = no_blocks id left (i + 1) (store32 m (block_of id i) minus_one)

-- The fields of a new inode, with the dirty flag.
unfoldable pub fill_inode : ℕ → List ℕ → ℕ → ℕ → Mem → Mem
fill_inode id name parent kind m =
    let named = store32 (store_name (inode_at id) 31 name m) (type_of id) kind in
    let placed = store32 (store32 named (size_of id) 0) (parent_of id) parent in
    let empty =
      store32 (store32 placed (indirect_of id) minus_one) (first_child_block_of id) minus_one in
    let linked = store32 empty (link_count_of id) (if kind == type_file then 1 else 0) in
    store32 (no_blocks id max_blocks_per_file 0 linked) (dirty_at id) 1

module _ {D : Type 0} (dev : Device D) where
  -- What follows `alloc_inode`. The result of `dir_add_child` is not looked at.
  unfoldable pub create_with : List ℕ → ℕ → ℕ → Option ℕ × Fs D → Option ℕ × Fs D
  create_with name parent kind (none, fs) = (none, fs)
  create_with name parent kind (some id, fs) =
      let filled = record fs { mem = fill_inode id name parent kind fs.mem } in
      (some id, (dir_add_child dev parent id (save_inode dev id filled)).1)

  -- What follows the search for the name.
  unfoldable pub create_unless : List ℕ → ℕ → ℕ → Option ℕ × Fs D → Option ℕ × Fs D
  create_unless name parent kind (some c, fs) = (none, fs)
  create_unless name parent kind (none, fs) = create_with name parent kind (alloc_inode dev fs)

  -- `none` is -1.
  unfoldable pub create_inode : List ℕ → ℕ → ℕ → Fs D → Option ℕ × Fs D
  create_inode name parent kind fs =
      if not (valid_inode parent)
      then (none, fs)
      else create_unless name parent kind (child_of dev name parent fs)
