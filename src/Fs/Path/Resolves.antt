-- ===== src/Fs/Path/Resolves.antt =====
-- The file system that a path leads to, and what is left of the path there, in terms of the mount
-- points alone.
use calculatoros.Prelude.{
  ℕ, zero, suc, ◌<◌, ◌≤◌, ◌≡◌, ◌≢◌, inl, inr, refl, ap, subst, true, false, Option, some, List, [],
  ◌∷◌, ◌++◌, ◌==◌, length, drop, get_elem?, arith, Bool-cases,
}
use calculatoros.CString.{ascii, head, starts_with, streq}
use calculatoros.CString.Laws.{streq_iff, starts_with-append}
use calculatoros.Fs.Path.{Mount, is_root, covers, root_mount, below, vfs_resolve}
use calculatoros.Fs.Path.Longest.{
  NoneLonger, Chosen, relative, mounted, unmounted, vfs_resolve-Chosen,
}

-- The path is that of the directory `dir`, or leads through it; `rel` is what is left below it.
pub data IsUnder (path dir : List ℕ) : List ℕ → Type 0 where
  itself : (rest : List ℕ) → path ≡ dir ++ rest → head rest ≡ 0 → IsUnder path dir (ascii "/")
  inside : (rest : List ℕ) → path ≡ dir ++ rest → head rest ≡ b'/' → IsUnder path dir rest

-- A mount of the table, other than the root's, that the path leads to, and what is left of the path.
pub record LeadsTo (path : List ℕ) (mounts : List Mount) (m : Mount) (rel : List ℕ) : Type 0 where
  pub at : ℕ
  pub stands : get_elem? mounts at ≡ some m
  pub not_root : m.path ≢ ascii "/"
  pub under : IsUnder path m.path rel

-- No mount that the path leads to has a mount point of more than `n` characters.
abbrev pub Longest : List ℕ → List Mount → ℕ → Type 0
Longest path mounts n = (m : Mount) (rel : List ℕ) → LeadsTo path mounts m rel → length m.path ≤ n

-- The file system of the first mount at "/", or else the current one.
pub data IsRoot (current : Option ℕ) (mounts : List Mount) : Option ℕ → Type 0 where
  first :
      {m : Mount}
      → (i : ℕ) → get_elem? mounts i ≡ some m
      → m.path ≡ ascii "/"
      → ((j : ℕ) (x : Mount) → j < i → get_elem? mounts j ≡ some x → x.path ≢ ascii "/")
      → IsRoot current mounts (some m.fs)
  no_root :
      ((j : ℕ) (x : Mount) → get_elem? mounts j ≡ some x → x.path ≢ ascii "/")
      → IsRoot current mounts current

-- Where a path leads, and what is left of it.
pub data Resolves (path : List ℕ) (current : Option ℕ) (mounts : List Mount)
    : Option ℕ × List ℕ → Type 0 where
  is_relative : head path ≢ b'/' → Resolves path current mounts (current, path)
  to_mount :
      {m : Mount}
      → {rel : List ℕ} → head path ≡ b'/'
      → 0 < length m.path
      → LeadsTo path mounts m rel
      → Longest path mounts (length m.path)
      → Resolves path current mounts (some m.fs, rel)
  to_root :
      {fs : Option ℕ}
      → head path ≡ b'/'
      → Longest path mounts 0
      → IsRoot current mounts fs
      → Resolves path current mounts (fs, path)

starts_with-drop : (s p : List ℕ) → starts_with s p ≡ true → s ≡ p ++ drop (length p) s
unfolding starts_with
starts_with-drop s [] h = refl
starts_with-drop [] (c ∷ p) h = absurd (ground arith)
starts_with-drop (d ∷ s) (c ∷ p) h =
    let rest = starts_with-drop s p (ground arith) in
    let e : d ≡ c = ground arith in rw (← e) (ap (d ∷◌) rest)

drop-append : (p s : List ℕ) → drop (length p) (p ++ s) ≡ s
drop-append [] s = refl
drop-append (c ∷ p) s = drop-append p s

covers-not_root : (path : List ℕ) (m : Mount) → covers path m ≡ true → m.path ≢ ascii "/"
unfolding covers
covers-not_root path m h e =
    let r : is_root m.path ≡ true = (streq_iff m.path (ascii "/")).1 e in ground arith

covers-IsUnder :
    (path : List ℕ) (m : Mount) → covers path m ≡ true → IsUnder path m.path (below path m.path)
unfolding covers below
covers-IsUnder path m h =
    let rest = drop (length m.path) path in
    let split = starts_with-drop path m.path (ground arith) in
    elim (Bool-cases (head rest == 0)) [
      | inl y ↦ rw y (itself rest split (ground arith))
      | inr n ↦ rw n (inside rest split (ground arith))
    ]

not_streq : (a b : List ℕ) → a ≢ b → streq a b ≡ false
not_streq a b ne = elim (Bool-cases (streq a b)) [
  | inl y ↦ absurd (ne ((streq_iff a b).0 y))
  | inr n ↦ n
]

covers_of_IsUnder :
    (path : List ℕ) (m : Mount) {rel : List ℕ}
    → m.path ≢ ascii "/"
    → IsUnder path m.path rel
    → covers path m ≡ true
unfolding covers
covers_of_IsUnder path m ne (itself rest e h) =
    let starts = starts_with-append m.path rest in
    let r : is_root m.path ≡ false = not_streq m.path (ascii "/") ne in
    rw (e, r, starts, drop-append m.path rest, h) refl
covers_of_IsUnder path m ne (inside rest e h) =
    let starts = starts_with-append m.path rest in
    let r : is_root m.path ≡ false = not_streq m.path (ascii "/") ne in
    rw (e, r, starts, drop-append m.path rest, h) refl

NoneLonger-Longest :
    (path : List ℕ) (mounts : List Mount) (n : ℕ) → NoneLonger path mounts n → Longest path mounts n
NoneLonger-Longest path mounts n h m rel c =
    h m
      (record { at = c.at; stands = c.stands; fits = covers_of_IsUnder path m c.not_root c.under })

-- An entry of `m ∷ ms` is not the root's, if neither is `m` nor what stands there in `ms`.
in_front :
    (m : Mount) (ms : List Mount)
    → m.path ≢ ascii "/"
    → (j : ℕ) (x : Mount) → get_elem? (m ∷ ms) j ≡ some x
    → ((k : ℕ) → j ≡ suc k → get_elem? ms k ≡ some x → x.path ≢ ascii "/")
    → x.path ≢ ascii "/"
in_front m ms ne zero x e h = let s : m ≡ x = cc in subst (λ y. y.path ≢ ascii "/") s ne
in_front m ms ne (suc j) x e h = h j refl e

root_mount-IsRoot :
    (current : Option ℕ) (mounts : List Mount) → IsRoot current mounts (root_mount current mounts)
unfolding root_mount
root_mount-IsRoot current [] = no_root (λ j x e. absurd (ground arith))
root_mount-IsRoot current (m ∷ ms) = elim (Bool-cases (is_root m.path)) [
  | inl y ↦
      rw y (first zero refl ((streq_iff m.path (ascii "/")).0 y) (λ j x h. absurd (omega arith)))
  | inr n ↦ rw n (
      deeper m (root_mount current ms)
        (λ e. let y = (streq_iff m.path (ascii "/")).1 e in ground arith)
        (root_mount-IsRoot current ms))
]
  where
    deeper :
        (m : Mount) (fs : Option ℕ)
        → m.path ≢ ascii "/"
        → IsRoot current ms fs
        → IsRoot current (m ∷ ms) fs
    deeper m fs ne (first i stands is before) =
        first (suc i) stands is
          (λ j x h e. in_front m ms ne j x e (λ k l f. before k x (omega arith) f))
    deeper m fs ne (no_root h) = no_root (λ j x e. in_front m ms ne j x e (λ k l f. h k x f))

resolved :
    {path : List ℕ} {current : Option ℕ} {mounts : List Mount} {r : Option ℕ × List ℕ}
    → Chosen path current mounts r
    → Resolves path current mounts r
resolved (relative n) = is_relative (λ e. ground arith)
resolved {path} {mounts} (mounted {m} slash some_path c longest) =
    to_mount (ground arith) some_path
      (record {
        at = c.at;
        stands = c.stands;
        not_root = covers-not_root path m c.fits;
        under = covers-IsUnder path m c.fits;
      })
      (NoneLonger-Longest path mounts (length m.path) longest)
resolved {path} {current} {mounts} (unmounted slash longest) =
    to_root (ground arith) (NoneLonger-Longest path mounts 0 longest)
      (root_mount-IsRoot current mounts)

-- `vfs_resolve` takes a path that does not begin with a slash to the current file system. Any other
-- leads to the mount with the longest mount point that is the path itself or a directory on its way,
-- the root apart; what is left is the path from the slash behind the mount point on, or "/" where it
-- ends there. A path that leads to no such mount point but an empty one goes, unchanged, to the first
-- mount at "/", and to the current file system if there is none.
pub vfs_resolve-Resolves :
    (path : List ℕ) (current : Option ℕ) (mounts : List Mount)
    → Resolves path current mounts (vfs_resolve path current mounts)
vfs_resolve-Resolves path current mounts = resolved (vfs_resolve-Chosen path current mounts)
