-- ===== src/Fs/Mount/Current.antt =====
-- A change of directory in fs.c, across the mounted file systems.
use calculatoros.Prelude.{
  ℕ, zero, suc, ◌<◌, ◌≡◌, refl, sym, Bool, true, false, Option, none, some, List, [], ◌∷◌,
  get_elem?, Bool-cases, inl, inr, subst, arith,
}
use calculatoros.Fs.Device.{Device}
use calculatoros.Fs.State.{Fs}
use calculatoros.Fs.Path.{Mount, is_root, root_mount, vfs_resolve}
use calculatoros.Fs.Path.Longest.{Chosen, relative, mounted, unmounted, vfs_resolve-Chosen}
use calculatoros.Fs.Files.{change_dir}
use calculatoros.Fs.Mount.{Vfs, on_resolved, on_path, made_current, fs_cd}
use calculatoros.Fs.Mount.Table.{AreBelow, IsBelow, IsTable}

root_mount-IsBelow :
    (n : ℕ) (o : Option ℕ) (ms : List Mount)
    → IsBelow n o
    → AreBelow n ms
    → IsBelow n (root_mount o ms)
unfolding root_mount IsBelow AreBelow
root_mount-IsBelow n o [] h hs = h
root_mount-IsBelow n o (m ∷ ms) h (k, ks) = elim (Bool-cases (is_root m.path)) [
  | inl y ↦ rw y k
  | inr f ↦ rw f (root_mount-IsBelow n o ms h ks)
]

AreBelow-at :
    (n i : ℕ) (ms : List Mount) (m : Mount) → AreBelow n ms → get_elem? ms i ≡ some m → m.fs < n
unfolding AreBelow
AreBelow-at n i [] m h e = absurd (ground arith)
AreBelow-at n zero (x ∷ ms) m (h, hs) e = let s : x ≡ m = cc in subst (λ y. y.fs < n) s h
AreBelow-at n (suc i) (x ∷ ms) m (h, hs) e = AreBelow-at n i ms m hs e

Chosen-IsBelow :
    {path : List ℕ} {current : Option ℕ} {mounts : List Mount} {r : Option ℕ × List ℕ} (n : ℕ)
    → IsBelow n current
    → AreBelow n mounts
    → Chosen path current mounts r
    → IsBelow n r.0
unfolding IsBelow
Chosen-IsBelow n h hs (relative e) = h
Chosen-IsBelow {mounts} n h hs (mounted {m} slash some_path c longest) =
    AreBelow-at n c.at mounts m hs c.stands
Chosen-IsBelow {current} {mounts} n h hs (unmounted slash longest) =
    root_mount-IsBelow n current mounts h hs

module _ {D : Type 0} (dev : Device D) where
  on_resolved-IsTable :
      (op : List ℕ → Fs D → Option Bool × Fs D) (r : Option ℕ × List ℕ) (v : Vfs D)
      → IsTable v
      → IsTable (on_resolved dev op r v).1
  unfolding on_resolved
  on_resolved-IsTable op (none, rel) v t = t
  on_resolved-IsTable op (some n, rel) v t = record {
    short = t.short;
    instances_fit = t.instances_fit;
    set_up = t.set_up;
    current_set_up = t.current_set_up;
  }

  on_resolved_count :
      (op : List ℕ → Fs D → Option Bool × Fs D) (r : Option ℕ × List ℕ) (v : Vfs D)
      → (on_resolved dev op r v).1.instance_count ≡ v.instance_count
  unfolding on_resolved
  on_resolved_count op (none, rel) v = refl
  on_resolved_count op (some n, rel) v = refl

  made_current-IsTable :
      (chosen : Option ℕ) (r : Option Bool × Vfs D) (v' : Vfs D)
      → IsBelow r.1.instance_count chosen
      → IsTable r.1
      → made_current dev chosen r ≡ some v'
      → IsTable v'
  unfolding made_current
  made_current-IsTable chosen (none, v) v' h t e = absurd (ground arith)
  made_current-IsTable chosen (some true, v) v' h t e =
      subst (λ o. elim o [ none ↦ Unit | some w ↦ IsTable w ]) e
        (record {
          short = t.short;
          instances_fit = t.instances_fit;
          set_up = t.set_up;
          current_set_up = h;
        })
  made_current-IsTable chosen (some false, v) v' h t e =
      subst (λ o. elim o [ none ↦ Unit | some w ↦ IsTable w ]) e t

  -- A change of directory that ends, whether it succeeds or not, keeps the table of mounts well
  -- formed: the current file system is then still an instance that has been set up.
  pub fs_cd-IsTable :
      (fuel : ℕ) (path : List ℕ) (v v' : Vfs D)
      → IsTable v
      → fs_cd dev fuel path v ≡ some v'
      → IsTable v'
  unfolding fs_cd on_path
  fs_cd-IsTable fuel path v v' t e =
      let resolved = vfs_resolve path v.current v.mounts in
      let below =
        Chosen-IsBelow v.instance_count t.current_set_up t.set_up
          (vfs_resolve-Chosen path v.current v.mounts) in
      made_current-IsTable resolved.0 (on_resolved dev (change_dir dev fuel) resolved v) v'
        (subst (λ n. IsBelow n resolved.0)
          (sym (on_resolved_count (change_dir dev fuel) resolved v)) below)
        (on_resolved-IsTable (change_dir dev fuel) resolved v t) e
