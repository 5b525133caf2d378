-- ===== src/Fs/Mount/Table.antt =====
-- The table of mounts, and the instances that it names.
use calculatoros.Prelude.{
  ℕ, zero, suc, ◌+◌, ◌≤◌, ◌<◌, ◌≡◌, refl, Bool, true, false, not, Option, none, some, List, [], ◌∷◌,
  ◌++◌, leb, length, subst, length-append, take, if◌then◌else◌, arith, Bool-cases, inl, inr,
}
use calculatoros.Fs.Layout.{superblock_sector}
use calculatoros.Fs.Device.{Device}
use calculatoros.Fs.State.{Fs, dev_read}
use calculatoros.Fs.Path.{Mount, is_root}
use calculatoros.Fs.Mount.{
  max_mounts, Vfs, set_instance, has_magic, find_mount, without_mount, fs_at, same_fs, umount_at,
  fs_umount, loaded_fs, add_mount, fs_mount,
}

-- Every mount names an instance below `n`.
unfoldable pub AreBelow : ℕ → List Mount → Type 0
AreBelow n [] = Unit
AreBelow n (m ∷ ms) = (m.fs < n) × AreBelow n ms

AreBelow-mono : (n : ℕ) (ms : List Mount) → AreBelow n ms → AreBelow (n + 1) ms
unfolding AreBelow
AreBelow-mono n [] h = tt
AreBelow-mono n (m ∷ ms) (h, hs) = (omega arith, AreBelow-mono n ms hs)

AreBelow-append :
    (n : ℕ) (ms : List Mount) (m : Mount) → AreBelow n ms → m.fs < n → AreBelow n (ms ++ (m ∷ []))
unfolding AreBelow
AreBelow-append n [] m h k = (k, tt)
AreBelow-append n (x ∷ ms) m (h, hs) k = (h, AreBelow-append n ms m hs k)

AreBelow-without_mount :
    (n i : ℕ) (ms : List Mount) → AreBelow n ms → AreBelow n (without_mount i ms)
unfolding AreBelow without_mount
AreBelow-without_mount n i [] h = tt
AreBelow-without_mount n zero (m ∷ ms) (h, hs) = hs
AreBelow-without_mount n (suc i) (m ∷ ms) (h, hs) = (h, AreBelow-without_mount n i ms hs)

length-without_mount : (i : ℕ) (ms : List Mount) → length (without_mount i ms) ≤ length ms
unfolding without_mount
length-without_mount i [] = omega arith
length-without_mount zero (m ∷ ms) = omega arith
length-without_mount (suc i) (m ∷ ms) = omega (arith, length-without_mount i ms)

unfoldable pub IsBelow : ℕ → Option ℕ → Type 0
IsBelow n none = Unit
IsBelow n (some i) = i < n

-- The table has at most `MAX_MOUNTS` entries, and they and the current file system are instances
-- that have been set up, all of them inside the array of `MAX_MOUNTS`.
pub record IsTable {D : Type 0} (v : Vfs D) : Type 0 where
  pub short : length v.mounts ≤ max_mounts
  pub instances_fit : v.instance_count ≤ max_mounts
  pub set_up : AreBelow v.instance_count v.mounts
  pub current_set_up : IsBelow v.instance_count v.current

IsBelow-mono : (n : ℕ) (o : Option ℕ) → IsBelow n o → IsBelow (n + 1) o
unfolding IsBelow
IsBelow-mono n none h = tt
IsBelow-mono n (some i) h = omega arith

module _ {D : Type 0} where
  umount_at-IsTable :
      (o : Option ℕ) (point : List ℕ) (v : Vfs D) → IsTable v → IsTable (umount_at o point v).1
  unfolding umount_at
  umount_at-IsTable none point v t = t
  umount_at-IsTable (some i) point v t = elim (Bool-cases (is_root point)) [
    | inl y ↦ rw y t
    | inr n ↦ elim (Bool-cases (same_fs v.current (fs_at i v.mounts))) [
      | inl y ↦ rw (n, y) t
      | inr m ↦
          let s = t.short in
          rw (n, m)
            (record {
              short = omega (arith, length-without_mount i v.mounts);
              instances_fit = t.instances_fit;
              set_up = AreBelow-without_mount v.instance_count i v.mounts t.set_up;
              current_set_up = t.current_set_up;
            })
    ]
  ]

  -- Unmounting keeps the table of mounts well formed: it has at most 8 entries, and they and the
  -- current file system are instances that have been set up.
  pub fs_umount-IsTable : (point : List ℕ) (v : Vfs D) → IsTable v → IsTable (fs_umount point v).1
  unfolding fs_umount
  fs_umount-IsTable point v t = umount_at-IsTable (find_mount 0 point v.mounts) point v t

module _ {D : Type 0} (dev : Device D) where
  set_instance-IsTable : (n : ℕ) (fs : Fs D) (v : Vfs D) → IsTable v → IsTable (set_instance n fs v)
  set_instance-IsTable n fs v t = record {
    short = t.short;
    instances_fit = t.instances_fit;
    set_up = t.set_up;
    current_set_up = t.current_set_up;
  }

  now_current :
      (b : Bool) (n : ℕ) (o : Option ℕ) → IsBelow n o → IsBelow (n + 1) (if b then some n else o)
  unfolding IsBelow
  now_current true n o h = omega arith
  now_current false n o h = IsBelow-mono n o h

  add_mount-IsTable :
      (point : List ℕ) (fs : Fs D) (v : Vfs D)
      → length v.mounts < max_mounts
      → v.instance_count < max_mounts
      → IsTable v
      → IsTable (add_mount dev point fs v)
  unfolding add_mount
  add_mount-IsTable point fs v room left t = record {
    short = omega (
      arith,
      length-append v.mounts (record { path = take 255 point; fs = v.instance_count } ∷ []),
    );
    instances_fit = omega arith;
    set_up =
        AreBelow-append (v.instance_count + 1) v.mounts _
          (AreBelow-mono v.instance_count v.mounts t.set_up) (omega arith);
    current_set_up = now_current (is_root point) v.instance_count v.current t.current_set_up;
  }

  -- What mounting must leave, where it has a result.
  abbrev LeavesTable : Option (Bool × Vfs D) → Type 0
  LeavesTable none = Unit
  LeavesTable (some (b, v)) = IsTable v

  fs_mount-LeavesTable :
      (d : D) (point : List ℕ) (v : Vfs D) → IsTable v → LeavesTable (fs_mount dev d point v)
  unfolding fs_mount
  fs_mount-LeavesTable d point v t =
      let fs = record (v.instances v.instance_count) { disk = d } in
      elim (Bool-cases (leb max_mounts (length v.mounts))) [
        | inl y ↦ rw y t
        | inr n ↦ elim (Bool-cases (leb max_mounts v.instance_count)) [
          | inl y ↦ rw (n, y) tt
          | inr l ↦
              elim (Bool-cases (not (has_magic (dev_read dev fs superblock_sector fs.stack)))) [
                | inl y ↦ rw (n, l, y) (set_instance-IsTable v.instance_count fs v t)
                | inr m ↦
                    rw (n, l, m)
                      (add_mount-IsTable point (loaded_fs dev fs) v (ground arith) (ground arith) t)
              ]
        ]
      ]

  -- Mounting that stays inside the array of instances, whether it succeeds or not, keeps the table of
  -- mounts well formed: it has at most 8 entries, and they and the current file system are instances
  -- that have been set up, at most 8 as well.
  pub fs_mount-IsTable :
      (d : D) (point : List ℕ) (v : Vfs D) (b : Bool) (v' : Vfs D)
      → fs_mount dev d point v ≡ some (b, v')
      → IsTable v
      → IsTable v'
  fs_mount-IsTable d point v b v' e t = subst LeavesTable e (fs_mount-LeavesTable d point v t)

  umount_at_count :
      (o : Option ℕ) (point : List ℕ) (v : Vfs D)
      → (umount_at o point v).1.instance_count ≡ v.instance_count
  unfolding umount_at
  umount_at_count none point v = refl
  umount_at_count (some i) point v = elim (Bool-cases (is_root point)) [
    | inl y ↦ rw y refl
    | inr n ↦ elim (Bool-cases (same_fs v.current (fs_at i v.mounts))) [
      | inl y ↦ rw (n, y) refl
      | inr m ↦ rw (n, m) refl
    ]
  ]
