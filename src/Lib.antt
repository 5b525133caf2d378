-- ===== src/Lib.antt =====
-- CalculatorOS: the memory allocators, the keyboard buffer, the console and its line editor, the
-- calculator, the partitions, the file system MFS and the assembler of the kernel, translated from
-- its C code, with the theorems that make them correct.
--
-- The parts of the program, and the files that model them:
--   * kernel.c, phys_bitmap: `Phys` has `alloc_phys`, `free_phys` and `init_phys` on the bitmap in
--     memory; `Bitmap` has the bits of a byte.
--   * kernel.c, free_list: `Heap` has `malloc` and `free` on the list of blocks, each with the offset
--     of its header in `heap`.
--   * keyboard_buffer.c: `Keyboard` has the ring that the interrupt handler fills and `get_key`
--     empties; `Keyboard.Queue` is the bounded queue that it implements.
--   * kernel.c, `mouse_handler`: `Mouse` decodes the packets of the mouse.
--   * acpi.c: `Acpi` searches the memory for the tables of the firmware.
--   * kernel.c, `screen_buffer`: `Console` has `print_char` and what it calls; `Console.Page` is the
--     page without an end that the screen shows the last rows of. `Console.Line` is `read_line`.
--   * kernel.c, the calculator: `Calc.Numbers` has `parse_double`, `print_double`, `pow` and
--     `sqrt_fast`, `Calc.Vars` the variables and the commands on them, `Calc.Parser` the recursive
--     descent from `parse_factor` to `parse_and_calc_double`, `Calc.Command` the branches of
--     `console_func` for `var` and for a line that is calculated, `Calc.Clock` `cmd_time`.
--     `Calc.Syntax` has expressions with their values, the independent description of the parser.
--   * kernel.c, strings and numbers: `CString` and `Number`; jit.c's parsers are in `Number` as well.
--   * jit.c: `Jit.Encode` has the parts of the encoders, `Jit.Branches` the branches of
--     `assemble_and_execute` in their order, `Jit` the choice of the branch and the pool.
--   * block.c: `Block` has the devices and the list of partitions, `Block.Edit` the creation and the
--     deletion of partitions in the master boot record.
--   * fs.c and fs.h: `Fs`. `Fs.Layout` has the constants and the offsets of the fields,
--     `Fs.Device` the interface to a disk, which `Fs.Device.Ram` fills, `Fs.State` the state of a
--     mounted file system, `Fs.Bitmaps` the bitmaps of blocks and inodes, `Fs.Inode` the inode cache,
--     `Fs.Dir` the directories, `Fs.Data` the reading of files and `Fs.Data.Write` their writing,
--     `Fs.Path` paths and the choice of a mount, `Fs.Lookup` the search for inodes and their
--     creation, `Fs.Files` the operations on files and directories, `Fs.Access` the reading and
--     writing of whole files, `Fs.Link` links, `Fs.Follow` `resolve_symlink`, `Fs.Mount` mounting,
--     `Fs.Format` formatting and the initial RAM disk.
-- `Console.Line.read_line` takes its scancodes from the ring of `Keyboard`, which the interrupt
-- handler fills between its calls, and prints by `Console.print_char`; the line it returns is
-- what `Calc.Command` reads. The operations of `Fs.Files` find an inode by `Fs.Lookup`, which
-- reads the lists of `Fs.Dir` through the cache of `Fs.Inode`; blocks come from `Fs.Bitmaps`;
-- `Fs.Mount.on_path` applies an operation to the file system that `Fs.Path.vfs_resolve` chooses.
--
-- How the state corresponds to the code. Memory is a function from addresses to bytes, so that a
-- copy past the end of an array is a write to what follows it: an `fs_instance_t` is the memory
-- from its address on, with the offsets of the packed `inode_t` and 32-bit `int`s and pointers. A
-- `uint32_t` has its wrap-around written out as a remainder. A C string is the list of its bytes.
-- A null pointer or -1 is `none`, a result 0 is `false`. A local buffer that is not initialised
-- is an arbitrary memory, the field `stack`. The loops run over the number of rounds that are
-- left; `print_dec` has 11 bytes for digits, enough for the 10 of a `uint32_t`. Only `find_inode`
-- calls itself without a bound, for each symbolic link on the way: it takes fuel, one unit more
-- than the links it may follow one inside the other, and an operation whose search has used it
-- up has no result, `none`. The parser of the calculator calls itself on
-- what the last call left; each call takes a unit of fuel, and four for each byte of the text and
-- four more are given. The loops of `Fs.Access` that read until the end of a file take a number
-- of rounds, one more than the bytes that are asked for. The type `double` is a parameter with
-- the operations of the processor; where a theorem needs that a whole number is exact, `IsExact`
-- says so of the operations, and the arithmetic of whole numbers is an instance. `int` is a
-- signed number, and a cast is a parameter, so that its value out of range is arbitrary. The
-- reads and writes of disks are parameters with the law that what is written is read back; the
-- machine that runs assembled code is a parameter without a law.
--
-- Not modelled: pixels, in the console as well as the graphics of kernel.c; what file system,
-- partitions and heap print; the branches of the command interpreter, but for those above: they
-- call the parts above; and the drivers (ahci.c, pci.c, apic.c, hpet.c, idt.c, acpi.c's reset),
-- which access hardware; of fs.c device files, listing, `vfs_cd` and the printed path of the
-- current directory. The console keeps its cursor in the screen. A path fits the buffers it is
-- copied to, and a device is mounted once at a time.
pub mod Acpi
pub mod Mouse
pub mod Prelude
pub mod Memory
pub mod Bitmap
pub mod Phys
pub mod Heap
pub mod Fs
pub mod Keyboard
pub mod CString
pub mod Number
pub mod Jit
pub mod Block
pub mod Calc
pub mod Console
