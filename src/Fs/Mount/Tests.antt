-- ===== src/Fs/Mount/Tests.antt =====
-- Runs of mounting.
use calculatoros.Prelude.{◌≡◌, refl, true, none, some, [], ◌∷◌, ◌==◌, if◌then◌else◌, arith}
use calculatoros.CString.{ascii, streq, starts_with}
use calculatoros.Memory.{Mem}
use calculatoros.Fs.Device.Ram.{ram_device, ram_read}
use calculatoros.Fs.State.{dev_read}
use calculatoros.Fs.Runs.{blank}
use calculatoros.Fs.Mount.{
  Vfs, fs_mount, fs_umount, has_magic, umount_at, find_mount, without_mount, loaded_fs, add_mount,
}
use calculatoros.Fs.Path.{vfs_resolve, best_mount, covers, resolve_with, below, root_mount}
use calculatoros.Fs.Mount.Table.{IsTable, AreBelow, IsBelow, fs_mount-IsTable}

-- A disk that starts with "MFS".
abbrev mfs : Mem
mfs a = if a == 0 then b'M' else if a == 1 then b'F' else if a == 2 then b'S' else 0

abbrev nothing_mounted : Vfs Mem
nothing_mounted = record { instances = λ i. blank; instance_count = 0; mounts = []; current = none }

nothing-IsTable : IsTable nothing_mounted
unfolding AreBelow IsBelow
nothing-IsTable = record {
  short = omega arith;
  instances_fit = omega arith;
  set_up = tt;
  current_set_up = tt;
}

abbrev with_mnt : Vfs Mem
with_mnt =
    add_mount ram_device (ascii "/mnt") (loaded_fs ram_device (record blank { disk = mfs }))
      nothing_mounted

mount_run : fs_mount ram_device mfs (ascii "/mnt") nothing_mounted ≡ some (true, with_mnt)
unfolding fs_mount has_magic dev_read ram_read
mount_run = refl

fs_mount-IsTable_example : IsTable with_mnt
fs_mount-IsTable_example =
    fs_mount-IsTable ram_device mfs (ascii "/mnt") nothing_mounted true with_mnt mount_run
      nothing-IsTable

-- The ninth mount, after an unmount, would use an instance outside the array.
abbrev eight_used : Vfs Mem
eight_used = record nothing_mounted { instance_count = 8 }

outside_run : fs_mount ram_device mfs (ascii "/mnt") eight_used ≡ none
unfolding fs_mount
outside_run = refl

abbrev two_mounts : Vfs Mem
two_mounts = record nothing_mounted {
  instance_count = 2;
  mounts = record { path = ascii "/"; fs = 0 } ∷ record { path = ascii "/mnt"; fs = 1 } ∷ [];
  current = some 0;
}

two-IsTable : IsTable two_mounts
unfolding AreBelow IsBelow
two-IsTable = record {
  short = omega arith;
  instances_fit = omega arith;
  set_up = (omega arith, (omega arith, tt));
  current_set_up = omega arith;
}

umount_run :
    (fs_umount (ascii "/mnt") two_mounts).1.mounts ≡ record { path = ascii "/"; fs = 0 } ∷ []
unfolding fs_umount umount_at find_mount without_mount streq
umount_run = refl

-- `vfs_create_file("/mnt/a")` leaves the file system at /mnt alone.
first_run : vfs_resolve (ascii "/mnt/a") (some 0) two_mounts.mounts ≡ (some 1, ascii "/a")
unfolding vfs_resolve best_mount covers starts_with streq resolve_with below
first_run = refl

second_run : vfs_resolve (ascii "/a") (some 0) two_mounts.mounts ≡ (some 0, ascii "/a")
unfolding vfs_resolve best_mount covers starts_with streq resolve_with below root_mount
second_run = refl
