-- ===== src/Fs/Path/Longest.antt =====
-- The loops of `vfs_resolve` choose the longest mount point that `covers` accepts.
use calculatoros.Prelude.{
  ℕ, zero, suc, ◌≤◌, ◌<◌, ◌≡◌, ◌⊎◌, inl, inr, refl, sym, true, false, ◌&&◌, Option, none, some,
  List, [], ◌∷◌, ◌==◌, ltb, length, get_elem?, arith, Bool-cases, subst,
}
use calculatoros.CString.{head}
use calculatoros.Fs.Path.{Mount, covers, best_mount, root_mount, below, resolve_with, vfs_resolve}

-- The mount stands in the table and covers the path.
pub record Covers (path : List ℕ) (mounts : List Mount) (m : Mount) : Type 0 where
  pub at : ℕ
  pub stands : get_elem? mounts at ≡ some m
  pub fits : covers path m ≡ true

-- No mount of the table that covers the path has more than `n` characters.
abbrev pub NoneLonger : List ℕ → List Mount → ℕ → Type 0
NoneLonger path mounts n = (m : Mount) → Covers path mounts m → length m.path ≤ n

-- What `vfs_resolve` may return, in the terms of its own tests.
pub data Chosen (path : List ℕ) (current : Option ℕ) (mounts : List Mount)
    : Option ℕ × List ℕ → Type 0 where
  relative : (head path == b'/') ≡ false → Chosen path current mounts (current, path)
  mounted :
      {m : Mount}
      → (head path == b'/') ≡ true
      → 0 < length m.path
      → Covers path mounts m
      → NoneLonger path mounts (length m.path)
      → Chosen path current mounts (some m.fs, below path m.path)
  unmounted :
      (head path == b'/') ≡ true
      → NoneLonger path mounts 0
      → Chosen path current mounts (root_mount current mounts, path)

later :
    {path : List ℕ} {ms : List Mount} {m' : Mount} (m : Mount)
    → Covers path ms m'
    → Covers path (m ∷ ms) m'
later m c = record { at = suc c.at; stands = c.stands; fits = c.fits }

-- The best mount of `ms` and of the one before them, of `best_len` characters.
Best : List ℕ → Option Mount → ℕ → List Mount → Option Mount → Type 0
Best path best best_len ms none = (best ≡ none) × NoneLonger path ms best_len
Best path best best_len ms (some m) =
    ((best ≡ some m) ⊎ ((best_len < length m.path) × Covers path ms m))
    × (best_len ≤ length m.path)
    × NoneLonger path ms (length m.path)

IsLength : Option Mount → ℕ → Type 0
IsLength none n = n ≡ 0
IsLength (some m) n = n ≡ length m.path

extend :
    (path : List ℕ) (m : Mount) (ms : List Mount) (n : ℕ)
    → (covers path m ≡ true → length m.path ≤ n)
    → NoneLonger path ms n
    → NoneLonger path (m ∷ ms) n
extend path m ms n h none_in x c = go c.at c.stands
  where
    go : (i : ℕ) → get_elem? (m ∷ ms) i ≡ some x → length x.path ≤ n
    go zero e =
        let s : m ≡ x = cc in
        subst (λ y. length y.path ≤ n) s (h (subst (λ y. covers path y ≡ true) (sym s) c.fits))
    go (suc i) e = none_in x (record { at = i; stands = e; fits = c.fits })

taken :
    (path : List ℕ) (best : Option Mount) (n : ℕ) (m : Mount) (ms : List Mount) (o : Option Mount)
    → covers path m ≡ true
    → n < length m.path
    → Best path (some m) (length m.path) ms o
    → Best path best n (m ∷ ms) o
unfolding Best
taken path best n m ms none c lt (e, h) = absurd (ground arith)
taken path best n m ms (some r) c lt (which, le, h) = (
  inr (elim which [
    | inl e ↦
        let s : m ≡ r = cc in
        (
          subst (λ y. n < length y.path) s lt,
          record { at = zero; stands = e; fits = subst (λ y. covers path y ≡ true) s c },
        )
    | inr (longer, d) ↦ (omega arith, later m d)
  ]),
  omega arith,
  extend path m ms (length r.path) (λ y. le) h,
)

skipped :
    (path : List ℕ) (best : Option Mount) (n : ℕ) (m : Mount) (ms : List Mount) (o : Option Mount)
    → (covers path m ≡ true → length m.path ≤ n)
    → Best path best n ms o
    → Best path best n (m ∷ ms) o
unfolding Best
skipped path best n m ms none f (e, h) = (e, extend path m ms n f h)
skipped path best n m ms (some r) f (which, le, h) = (
  elim which [ inl e ↦ inl e | inr (longer, d) ↦ inr (longer, later m d) ],
  le,
  extend path m ms (length r.path) (λ y. let g = f y in omega arith) h,
)

best_mount-Best :
    (path : List ℕ) (best : Option Mount) (n : ℕ) (ms : List Mount)
    → IsLength best n
    → Best path best n ms (best_mount path best n ms)
unfolding best_mount Best IsLength
best_mount-Best path none n [] e = (refl, λ m c. absurd (let s = c.stands in ground arith))
best_mount-Best path (some b) n [] e =
    (inl refl, omega arith, λ m c. absurd (let s = c.stands in ground arith))
best_mount-Best path best n (m ∷ ms) e =
    elim (Bool-cases (covers path m && ltb n (length m.path))) [
      | inl y ↦ rw y (
          taken path best n m ms (best_mount path (some m) (length m.path) ms) (ground arith)
            (ground arith) (best_mount-Best path (some m) (length m.path) ms refl))
      | inr f ↦ rw f (
          skipped path best n m ms (best_mount path best n ms) (λ y. ground arith)
            (best_mount-Best path best n ms e))
    ]

resolve_with-Chosen :
    (path : List ℕ) (current : Option ℕ) (mounts : List Mount) (o : Option Mount)
    → (head path == b'/') ≡ true
    → Best path none 0 mounts o
    → Chosen path current mounts (resolve_with o path current mounts)
unfolding resolve_with Best
resolve_with-Chosen path current mounts none slash (e, h) = unmounted slash h
resolve_with-Chosen path current mounts (some m) slash (inl e, le, h) = absurd (ground arith)
resolve_with-Chosen path current mounts (some m) slash (inr (lt, c), le, h) = mounted slash lt c h

-- The choice of `vfs_resolve`.
pub vfs_resolve-Chosen :
    (path : List ℕ) (current : Option ℕ) (mounts : List Mount)
    → Chosen path current mounts (vfs_resolve path current mounts)
unfolding vfs_resolve IsLength
vfs_resolve-Chosen path current mounts = elim (Bool-cases (head path == b'/')) [
  | inl y ↦ rw y (
      resolve_with-Chosen path current mounts (best_mount path none 0 mounts) y
        (best_mount-Best path none 0 mounts refl))
  | inr f ↦ rw f (relative f)
]
