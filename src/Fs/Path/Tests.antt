-- ===== src/Fs/Path/Tests.antt =====
-- Runs of the paths.
use calculatoros.Prelude.{◌≡◌, refl, some, none, List, [], ◌∷◌}
use calculatoros.CString.{ascii, starts_with, streq}
use calculatoros.Fs.Path.{
  Mount, split_path, split_at, last_slash, vfs_resolve, best_mount, covers, resolve_with, below,
  root_mount,
}
use calculatoros.Fs.Path.Resolves.{Resolves, vfs_resolve-Resolves}

abbrev mounts : List Mount
mounts =
    record { path = ascii "/"; fs = 0 }
    ∷ record { path = ascii "/mnt"; fs = 1 }
    ∷ record { path = ascii "/mnt/usb"; fs = 2 }
    ∷ []

resolve_run : vfs_resolve (ascii "/mnt/usb/a") (some 0) mounts ≡ (some 2, ascii "/a")
unfolding vfs_resolve best_mount covers starts_with streq resolve_with below
resolve_run = refl

-- A name that goes on after the mount point is below the shorter one.
longer_run : vfs_resolve (ascii "/mnt/usb2") (some 0) mounts ≡ (some 1, ascii "/usb2")
unfolding vfs_resolve best_mount covers starts_with streq resolve_with below
longer_run = refl

root_run : vfs_resolve (ascii "/etc") none mounts ≡ (some 0, ascii "/etc")
unfolding vfs_resolve best_mount covers starts_with streq resolve_with root_mount
root_run = refl

split_run : split_path (ascii "/usr/bin/sh") ≡ (ascii "/usr/bin", ascii "sh")
unfolding split_path split_at last_slash
split_run = refl

vfs_resolve-Resolves_example :
    Resolves (ascii "/mnt/usb/a") (some 0) mounts (vfs_resolve (ascii "/mnt/usb/a") (some 0) mounts)
vfs_resolve-Resolves_example = vfs_resolve-Resolves (ascii "/mnt/usb/a") (some 0) mounts
