-- ===== src/Fs/Follow/Tests.antt =====
-- Runs of following links.
use calculatoros.Prelude.{◌≤◌, ◌<◌, ◌≡◌, refl, arith}
use calculatoros.CString.{ascii}
use calculatoros.Memory.{Mem}
use calculatoros.Memory.Words.{load32, store32}
use calculatoros.Fs.Layout.{
  loaded_at, type_of, target_inode_of, symlink_target_of, type_symlink, type_dir,
}
use calculatoros.Fs.Device.Ram.{ram_device}
use calculatoros.Fs.State.{Fs, valid_inode}
use calculatoros.Fs.Inode.{load_inode}
use calculatoros.Fs.Runs.{blank, zeros}
use calculatoros.Fs.Lookup.{
  found, missing, find_inode, walk, segments, at_end, string_at, store_name,
}
use calculatoros.Fs.Follow.{resolve_symlink, hard_target}
use calculatoros.Fs.Follow.Chain.{Chain, absolute, symbolic_link, no_link, resolve_symlink-Chain}

-- Inode 4 is a hard link to inode 3.
abbrev hard_link : Fs Mem
hard_link = record blank {
  mem = store32 (store32 (store32 zeros (loaded_at 4) 1) (type_of 4) 4) (target_inode_of 4) 3;
}

hard_link_run : resolve_symlink ram_device 1 11 4 hard_link ≡ (found 3, hard_link)
unfolding resolve_symlink hard_target load_inode valid_inode load32 store32
hard_link_run = refl

-- Inode 5 is a symbolic link to "/", which is a directory.
abbrev root_link : Fs Mem
root_link = record blank {
  mem = store_name (symlink_target_of 5) 255 (ascii "/") (
      store32
        (store32 (store32 (store32 zeros (loaded_at 5) 1) (type_of 5) type_symlink) (loaded_at 0) 1)
        (type_of 0) type_dir);
}

root_chain : Chain ram_device 1 1 5 root_link 0 root_link
unfolding load_inode valid_inode find_inode walk segments at_end string_at store_name load32 store32
root_chain =
    symbolic_link 0 5 0 0 (ascii "/") root_link root_link root_link refl (absolute refl) refl
      (no_link 0 root_link (λ e. ground arith) (λ e. ground arith))

resolve_symlink-Chain_example :
    (1 ≤ 10 → resolve_symlink ram_device 1 11 5 root_link ≡ (found 0, root_link))
    × (10 < 1 → (resolve_symlink ram_device 1 11 5 root_link).0 ≡ missing)
resolve_symlink-Chain_example = resolve_symlink-Chain ram_device 1 root_chain
