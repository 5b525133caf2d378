-- ===== src/Fs/Format/Tests.antt =====
-- Runs of formatting.
use calculatoros.Prelude.{◌≡◌, true, false, none, some, [], arith}
use calculatoros.CString.{ascii}
use calculatoros.Memory.{Mem}
use calculatoros.Fs.Device.Ram.{ram_device}
use calculatoros.Fs.Mount.{Vfs, fs_mount}
use calculatoros.Fs.Runs.{blank, ram-IsReliable}
use calculatoros.Fs.Format.{fs_format, ram_disk_init}
use calculatoros.Fs.Format.Written.{IsFormatted}
use calculatoros.Fs.Format.Ram.{ram_disk_init-IsFormatted}
use calculatoros.Fs.Format.Mounted.{IsEmpty, fs_mount-fs_format}

abbrev unmounted : Vfs Mem
unmounted = record { instances = λ i. blank; instance_count = 0; mounts = []; current = none }

-- A disk and a stack that are full of sevens.
abbrev sevens : Mem
sevens a = 7

fs_mount-fs_format_example :
    (v : Vfs Mem) × (fs_mount ram_device (fs_format ram_device sevens sevens) (ascii "/") unmounted
      ≡ some (true, v))
    × IsEmpty ram_device (v.instances 0)
fs_mount-fs_format_example =
    fs_mount-fs_format ram_device ram-IsReliable sevens sevens (ascii "/") unmounted (omega arith)
      (omega arith)

ram_disk_init-IsFormatted_example :
    let (initialized, disk) = ram_disk_init sevens (false, sevens) in
    IsFormatted ram_device sevens disk
    × ((stack' disk' : Mem) → ram_disk_init stack' (initialized, disk') ≡ (initialized, disk'))
ram_disk_init-IsFormatted_example = ram_disk_init-IsFormatted sevens sevens
