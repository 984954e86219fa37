-- ===== src/Wfs.antt =====
-- cs537/P7: a file system in a mapped disk image, served over FUSE.
pub mod Memory
pub mod Layout
pub mod Bitmap
pub mod Mkfs
pub mod Path
pub mod Directory
pub mod Removal
pub mod Blocks
pub mod File
mod Tests
