-- ===== src/Fs/Dir/Tests.antt =====
-- Runs of the directories.
use calculatoros.Prelude.{refl, arith}
use calculatoros.Memory.{Mem}
use calculatoros.Fs.State.{Fs}
use calculatoros.Memory.Words.{load32, store32}
use calculatoros.Fs.Layout.{minus_one}
use calculatoros.Fs.Device.Ram.{ram_device}
use calculatoros.Fs.Runs.{ram-IsReliable, with_root, root_mem, zeros}
use calculatoros.Fs.Dir.{dir_add_child, dir_remove_child}
use calculatoros.Fs.Dir.Children.{
  IsDir, Adds, Removes, get_children-dir_add_child, get_children-dir_remove_child,
}

root-IsDir : IsDir (root_mem 7) 0 7
unfolding load32 store32
root-IsDir = record { valid = omega arith; loaded = refl; dir = refl; block = refl }

empty_root-IsDir : IsDir (root_mem minus_one) 0 minus_one
unfolding load32 store32
empty_root-IsDir = record { valid = omega arith; loaded = refl; dir = refl; block = refl }

get_children-dir_add_child_example :
    Adds ram_device (with_root 7) 0 7 5 (dir_add_child ram_device 0 5 (with_root 7))
get_children-dir_add_child_example =
    get_children-dir_add_child ram_device ram-IsReliable (with_root 7) 0 7 5 root-IsDir
      (omega arith) (omega arith)

-- The block 7 has the child 5 in its first slot.
abbrev with_child : Fs Mem
with_child = record (with_root 7) { disk = store32 zeros 136192 5 }

get_children-dir_remove_child_example :
    Removes ram_device with_child 0 7 5 (dir_remove_child ram_device 0 5 with_child)
get_children-dir_remove_child_example =
    get_children-dir_remove_child ram_device ram-IsReliable with_child 0 7 5 root-IsDir
      (omega arith) (omega arith)
