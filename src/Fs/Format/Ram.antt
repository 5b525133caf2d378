-- ===== src/Fs/Format/Ram.antt =====
-- The RAM disk is set up like a formatted device.
use calculatoros.Prelude.{arith, ◌≡◌, refl, false}
use calculatoros.Memory.{Mem}
use calculatoros.Fs.Device.Ram.{ram_device, ram_read}
use calculatoros.Fs.Format.{magic, root_sector, filled_disk, ram_disk_init}
use calculatoros.Fs.Format.Written.{IsFormatted}

filled_disk-IsFormatted : (stack ram : Mem) → IsFormatted ram_device stack (filled_disk stack ram)
unfolding filled_disk ram_read magic root_sector
filled_disk-IsFormatted stack ram = record {
  super = λ buf k h. ground arith;
  root = λ buf k h. ground arith;
  table = λ i p h buf k l. ground arith;
  blocks = λ buf k h. ground arith;
  inodes = λ buf k h. ground arith;
}

-- The first call of `ram_disk_init` leaves a formatted disk, whatever the array and the stack held
-- before, and every later one leaves the array as it is then, whatever has been written to it since.
pub ram_disk_init-IsFormatted :
    (stack ram : Mem)
    → let (initialized, disk) = ram_disk_init stack (false, ram) in
      IsFormatted ram_device stack disk
      × ((stack' disk' : Mem) → ram_disk_init stack' (initialized, disk') ≡ (initialized, disk'))
unfolding ram_disk_init
ram_disk_init-IsFormatted stack ram = (filled_disk-IsFormatted stack ram, λ stack' disk'. refl)
