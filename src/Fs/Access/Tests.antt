-- ===== src/Fs/Access/Tests.antt =====
-- Runs of reading whole files.
use calculatoros.Prelude.{◌/◌, ◌≡◌, ◌≢◌, ◌∙◌, refl, ap, sym, some, none, ◌++◌, arith}
use calculatoros.CString.{ascii, streq}
use calculatoros.Memory.{Mem}
use calculatoros.Memory.Words.{load32, store32}
use calculatoros.Fs.Layout.{loaded_at, size_of, block_of, current_dir_at, type_of, type_file}
use calculatoros.Fs.Device.Ram.{ram_device}
use calculatoros.Fs.State.{Fs}
use calculatoros.Fs.Runs.{blank, zeros}
use calculatoros.Fs.Data.Contents.{words, file_block, file_blocks, file_byte}
use calculatoros.Fs.Lookup.{find_inode, found, out_of_fuel, walk, segments, at_end}
use calculatoros.Fs.Access.{bytes_at, read_file, read_file_to_buf}
use calculatoros.Fs.Access.Reading.{IsWhole, read_file-file_byte, read_file_to_buf_ends}

-- Inode 3, which the path "." leads to, is a file of 100 bytes in the block 7.
abbrev file_mem : Mem
file_mem =
    store32 (store32 (store32 (store32 zeros (loaded_at 3) 1) (size_of 3) 100) (block_of 3 0) 7)
      current_dir_at 3

abbrev one_file : Fs Mem
one_file = record blank { mem = file_mem }

found_run : find_inode ram_device 1 (ascii ".") one_file ≡ (found 3, one_file)
unfolding find_inode walk segments at_end streq load32 store32
found_run = refl

first_block : file_block ram_device one_file 3 0 ≡ 7
unfolding file_blocks words load32 store32
first_block = refl

file-IsWhole : IsWhole ram_device one_file 3 100
unfolding load32 store32
file-IsWhole = record {
  loaded = refl;
  length_is = refl;
  fits = omega arith;
  mapped = λ p lo hi e.
      let z : p / 512 ≡ 0 = omega arith in
      let s = sym first_block ∙ ap (file_block ram_device one_file 3) (sym z) ∙ e in ground arith;
}

file_kind : load32 one_file.mem (type_of 3) ≡ type_file
unfolding load32 store32
file_kind = refl

read_file-file_byte_example :
    read_file ram_device 101 1 (ascii ".") one_file
    ≡ (some (bytes_at 100 (file_byte ram_device one_file 3) 0 ++ ascii "\n"), one_file)
read_file-file_byte_example =
    read_file-file_byte ram_device one_file one_file 101 1 3 100 (ascii ".") found_run file-IsWhole
      file_kind (omega arith) (omega arith)

search_ends : (find_inode ram_device 1 (ascii ".") one_file).0 ≢ out_of_fuel
search_ends e = let s = found_run in ground arith

read_file_to_buf_ends_example :
    (read_file_to_buf ram_device 21 1 (ascii ".") zeros 20 one_file).0 ≢ none
read_file_to_buf_ends_example =
    read_file_to_buf_ends ram_device one_file 21 1 20 (ascii ".") zeros search_ends (omega arith)
