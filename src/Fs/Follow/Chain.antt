-- ===== src/Fs/Follow/Chain.antt =====
-- Chains of links, and where `resolve_symlink` comes to at their ends.
use calculatoros.Prelude.{
  ℕ, zero, suc, ◌^◌, ◌<◌, ◌≤◌, ◌≡◌, ◌≢◌, false, refl, List, ◌∷◌, ◌==◌, arith,
}
use calculatoros.CString.{head}
use calculatoros.Memory.{Mem}
use calculatoros.Memory.Words.{load32}
use calculatoros.Fs.Layout.{
  type_symlink, type_hardlink, type_of, parent_of, target_inode_of, symlink_target_of,
}
use calculatoros.Fs.Device.{Device}
use calculatoros.Fs.State.{Fs}
use calculatoros.Fs.Inode.{load_inode}
use calculatoros.Fs.Lookup.{found, missing, find_inode, string_at}
use calculatoros.Fs.Follow.{
  go_on, hard_target, resolve_symlink, find_link, link_path, full_path, climb, joined,
}

-- `LinksTo m id path`: the target of the symbolic link `id` stands for the path, itself where it is
-- absolute, and behind a slash where it is relative and the link is in the root.
pub data LinksTo (m : Mem) (id : ℕ) : List ℕ → Type 0 where
  absolute :
      head (string_at m (symlink_target_of id) 256) ≡ b'/'
      → LinksTo m id (string_at m (symlink_target_of id) 256)
  in_root :
      head (string_at m (symlink_target_of id) 256) ≢ b'/'
      → load32 m (parent_of id) ≡ 0
      → LinksTo m id (b'/' ∷ string_at m (symlink_target_of id) 256)

module _ {D : Type 0} (dev : Device D) (fuel : ℕ) where
  -- `Chain n id fs t fs'`: in the state `fs`, the inode `id` is the first of `n` symbolic links, each
  -- of which leads to the next, and the last to `t`, which is no link, or to a hard link to `t`. Loading the inodes on the way leaves the state `fs'`.
  pub data Chain : ℕ → ℕ → Fs D → ℕ → Fs D → Type 0 where
    no_link :
        (id : ℕ) (fs : Fs D)
        → load32 (load_inode dev id fs).mem (type_of id) ≢ type_symlink
        → load32 (load_inode dev id fs).mem (type_of id) ≢ type_hardlink
        → Chain 0 id fs id (load_inode dev id fs)
    hard_link :
        (id t : ℕ) (fs : Fs D)
        → load32 (load_inode dev id fs).mem (type_of id) ≡ type_hardlink
        → load32 (load_inode dev id fs).mem (target_inode_of id) ≡ t
        → t < 2 ^ 31
        → Chain 0 id fs t (load_inode dev id fs)
    symbolic_link :
        (n id next t : ℕ) (path : List ℕ) (fs fs' fs'' : Fs D)
        → load32 (load_inode dev id fs).mem (type_of id) ≡ type_symlink
        → LinksTo (load_inode dev id fs).mem id path
        → find_inode dev fuel path (load_inode dev id fs) ≡ (found next, fs')
        → Chain n next fs' t fs''
        → Chain (suc n) id fs t fs''

  find_link-link_path :
      (id : ℕ) (fs : Fs D) (path : List ℕ)
      → LinksTo fs.mem id path
      → find_link dev fuel (link_path dev id fs) ≡ find_inode dev fuel path fs
  unfolding find_link link_path full_path climb joined
  find_link-link_path id fs path (absolute h) = rw h refl
  find_link-link_path id fs path (in_root h root) =
      let n : (head (string_at fs.mem (symlink_target_of id) 256) == b'/') ≡ false = ground arith in
      rw (n, root) refl

  short_chain :
      (levels n id t : ℕ) (fs fs' : Fs D)
      → Chain n id fs t fs'
      → n < levels
      → resolve_symlink dev fuel levels id fs ≡ (found t, fs')
  unfolding resolve_symlink go_on hard_target
  short_chain zero n id t fs fs' c h = absurd (omega arith)
  short_chain (suc levels) n' id' t' fs0 fs1 (no_link id fs s k) h = ground arith
  short_chain (suc levels) n' id' t' fs0 fs1 (hard_link id t fs k e l) h = ground arith
  short_chain (suc levels) n' id' t' fs0 fs1
        (symbolic_link n id next t path fs fs' fs'' k slash at c) h =
      rw (k, find_link-link_path id (load_inode dev id fs) path slash, at)
        (short_chain levels n next t fs' fs'' c (omega arith))

  long_chain :
      (levels n id t : ℕ) (fs fs' : Fs D)
      → Chain n id fs t fs'
      → levels ≤ n
      → (resolve_symlink dev fuel levels id fs).0 ≡ missing
  unfolding resolve_symlink go_on
  long_chain zero n id t fs fs' c h = refl
  long_chain (suc levels) n' id' t' fs0 fs1 (no_link id fs s k) h = absurd (omega arith)
  long_chain (suc levels) n' id' t' fs0 fs1 (hard_link id t fs k e l) h = absurd (omega arith)
  long_chain (suc levels) n' id' t' fs0 fs1
        (symbolic_link n id next t path fs fs' fs'' k slash at c) h =
      rw (k, find_link-link_path id (load_inode dev id fs) path slash, at)
        (long_chain levels n next t fs' fs'' c (omega arith))

  -- Along a chain of up to 10 symbolic links, each with an absolute target or in the root,
  -- `resolve_symlink` returns the inode at its end, one that is no link or the target of a hard link,
  -- and loads the inodes on the way; where the chain has more than 10 symbolic links, it finds
  -- nothing.
  pub resolve_symlink-Chain :
      {n id t : ℕ} {fs fs' : Fs D}
      → Chain n id fs t fs'
      → (n ≤ 10 → resolve_symlink dev fuel 11 id fs ≡ (found t, fs'))
        × (10 < n → (resolve_symlink dev fuel 11 id fs).0 ≡ missing)
  resolve_symlink-Chain {n} {id} {t} {fs} {fs'} c = (
    λ h. short_chain 11 n id t fs fs' c (omega arith),
    λ h. long_chain 11 n id t fs fs' c (omega arith),
  )
