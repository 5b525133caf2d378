-- ===== src/Fs.antt =====
-- fs.c: MFS, the file system of CalculatorOS, and fs.h, its layout on disk.
mod Runs
pub mod Layout
pub mod Device
pub mod State
pub mod Sectors
pub mod Bitmaps
pub mod Inode
pub mod Dir
pub mod Path
pub mod Data
pub mod Lookup
pub mod Files
pub mod Format
pub mod Access
pub mod Link
pub mod Follow
pub mod Mount
