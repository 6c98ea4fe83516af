-- ===== src/Fat32.antt =====
-- The FAT32 driver, core/filesytem/fat32.h, with the helpers of core/filesytem/filesystem.h. A disk
-- is the bytes of its sectors; the driver's routines are functions from a disk to a disk and a
-- result. Every routine finds the partition anew in the boot record, as the source does.
pub mod Disk
pub mod Volume
pub mod Table
pub mod Entries
pub mod Mirrors
pub mod Geometry
pub mod Blank
pub mod Chain
pub mod Name
pub mod Lookup
pub mod Stat
pub mod Update
pub mod Remove
pub mod File
pub mod Create
mod Tests
pub mod Names
pub mod Reading
pub mod Turns
pub mod Whole
pub mod Ruin
pub mod Endless
