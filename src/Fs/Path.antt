-- ===== src/Fs/Path.antt =====
-- Paths of fs.c: `split_path`, and the mounts that `vfs_resolve` chooses from.
pub mod Split
pub mod Longest
pub mod Resolves
mod Tests
use calculatoros.Prelude.{
  ℕ, zero, suc, ◌+◌, Bool, true, false, not, ◌&&◌, ◌||◌, Option, none, some, List, [], ◌∷◌, ◌==◌,
  ltb, length, take, drop, if◌then◌else◌,
}
use calculatoros.CString.{ascii, head, starts_with, streq}

-- The index of the last '/' of the path, from the index `i` on.
unfoldable pub last_slash : ℕ → List ℕ → Option ℕ
last_slash i [] = none
last_slash i (c ∷ s) = elim (last_slash (i + 1) s) [
  | some k ↦ some k
  | none ↦ if c == b'/' then some i else none
]

-- `dir` and `base`, by where the last '/' is.
unfoldable pub split_at : Option ℕ → List ℕ → List ℕ × List ℕ
split_at none path = (ascii ".", path)
split_at (some zero) path = (ascii "/", drop 1 path)
split_at (some (suc k)) path = (take (suc k) path, drop (suc (suc k)) path)

unfoldable pub split_path : List ℕ → List ℕ × List ℕ
split_path path = split_at (last_slash 0 path) path

-- `vfs_mount_t`; `fs` is the index in `instances`.
pub record Mount : Type 0 where
  pub path : List ℕ
  pub fs : ℕ

abbrev pub is_root : List ℕ → Bool
is_root path = streq path (ascii "/")

-- The mount point, not the root, is a directory on the way to `path`, or `path` itself.
unfoldable pub covers : List ℕ → Mount → Bool
covers path m =
    not (is_root m.path)
    && (starts_with path m.path
        && (head (drop (length m.path) path) == b'/' || head (drop (length m.path) path) == 0))

-- The first loop of `vfs_resolve`, with the best mount so far.
unfoldable pub best_mount : List ℕ → Option Mount → ℕ → List Mount → Option Mount
best_mount path best best_len [] = best
best_mount path best best_len (m ∷ ms) =
    let skip = best_mount path best best_len ms in
    let take = best_mount path (some m) (length m.path) ms in
    if covers path m && ltb best_len (length m.path) then take else skip

-- The second loop: the root mount, else the current file system.
unfoldable pub root_mount : Option ℕ → List Mount → Option ℕ
root_mount current [] = current
root_mount current (m ∷ ms) =
    let rest = root_mount current ms in if is_root m.path then some m.fs else rest

-- The path below a mount point, "/" for the mount point itself.
unfoldable pub below : List ℕ → List ℕ → List ℕ
below path mount = let rel = drop (length mount) path in if head rel == 0 then ascii "/" else rel

-- What `vfs_resolve` returns once the best mount is known, and `*rel`.
unfoldable pub resolve_with : Option Mount → List ℕ → Option ℕ → List Mount → Option ℕ × List ℕ
resolve_with (some m) path current mounts = (some m.fs, below path m.path)
resolve_with none path current mounts = (root_mount current mounts, path)

-- `none` is a null pointer.
unfoldable pub vfs_resolve : List ℕ → Option ℕ → List Mount → Option ℕ × List ℕ
vfs_resolve path current mounts =
    if not (head path == b'/')
    then (current, path)
    else resolve_with (best_mount path none 0 mounts) path current mounts
