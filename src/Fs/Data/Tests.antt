-- ===== src/Fs/Data/Tests.antt =====
-- Runs of reading files.
use calculatoros.Prelude.{
  ℕ, ◌+◌, ◌-◌, ◌/◌, ◌<◌, ◌≤◌, ◌%◌, ◌⊎◌, ◌≡◌, ◌≢◌, refl, min, ap, sym, ◌∙◌, arith,
}
use calculatoros.Memory.{Mem}
use calculatoros.Memory.Words.{load32, store32}
use calculatoros.Fs.Layout.{data_start, loaded_at, size_of, block_of}
use calculatoros.Fs.Device.Ram.{ram_device}
use calculatoros.Fs.State.{Fs, sector, dev_read}
use calculatoros.Fs.Sectors.{needed_sectors, SameSector}
use calculatoros.Fs.Runs.{ram-IsReliable, blank, zeros}
use calculatoros.Fs.Data.{read_file_data}
use calculatoros.Fs.Data.Contents.{words, file_block, file_blocks, file_byte}
use calculatoros.Fs.Data.Write.{write_file_data}
use calculatoros.Fs.Data.Write.InPlace.{IsInPlace, write_file_data-in_place}
use calculatoros.Fs.Data.Read.{IsReadable, read_file_data-file_byte}

-- Inode 3 is loaded, a file of 100 bytes in the block 7.
abbrev file_mem : Mem
file_mem = store32 (store32 (store32 zeros (loaded_at 3) 1) (size_of 3) 100) (block_of 3 0) 7

abbrev with_file : Fs Mem
with_file = record blank { mem = file_mem }

size_run : load32 file_mem (size_of 3) ≡ 100
unfolding load32 store32
size_run = refl

first_block : file_block ram_device with_file 3 0 ≡ 7
unfolding file_blocks words load32 store32
first_block = refl

file-IsReadable : IsReadable ram_device with_file 3 90 20
unfolding load32 store32
file-IsReadable = record {
  loaded = refl;
  inside = omega arith;
  no_wrap = omega arith;
  end_fits = omega arith;
  mapped = λ p lo hi e.
      let z : p / 512 ≡ 0 = omega arith in
      let s = sym first_block ∙ ap (file_block ram_device with_file 3) (sym z) ∙ e in ground arith;
}

read_file_data-file_byte_example :
    let ((count, out), fs') = read_file_data ram_device 3 zeros 90 20 with_file in
    (count ≡ min 20 (load32 with_file.mem (size_of 3) - 90))
    × ((j : ℕ) → j < count → out j ≡ file_byte ram_device with_file 3 (90 + j))
    × (fs' ≡ with_file)
read_file_data-file_byte_example =
    read_file_data-file_byte ram_device with_file 3 90 20 zeros file-IsReadable

-- The letter `A` ten times.
abbrev alphabet : Mem
alphabet a = b'A'

file-IsInPlace : IsInPlace with_file 3 7 90 10
unfolding load32 store32
file-IsInPlace = record {
  loaded = refl;
  clean = refl;
  some_bytes = omega arith;
  one_block = omega arith;
  direct = omega arith;
  block = refl;
  in_range = omega arith;
  inside = omega arith;
}

write_file_data-in_place_example :
    let (count, fs') = write_file_data ram_device 3 alphabet 90 10 with_file in
    (count ≡ 10)
    × (fs'.mem ≡ with_file.mem)
    × ((buf : Mem) (j : ℕ)
        → j < 10
        → dev_read ram_device fs' (sector data_start 7) buf (90 % 512 + j) ≡ alphabet j)
    × ((buf : Mem) (k : ℕ)
        → k < 512
        → (k < 90 % 512) ⊎ (90 % 512 + 10 ≤ k)
        → dev_read ram_device fs' (sector data_start 7) buf k
          ≡ dev_read ram_device with_file (sector data_start 7) buf k)
    × ((lba : ℕ)
        → lba < needed_sectors
        → sector data_start 7 ≢ lba
        → SameSector ram_device with_file fs' lba)
write_file_data-in_place_example =
    write_file_data-in_place ram_device ram-IsReliable with_file 3 7 90 10 alphabet file-IsInPlace
