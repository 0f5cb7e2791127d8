-- ===== src/FileSafety.antt =====
-- scripts/docs-file-safety.js, over a file system of names, inodes and symbolic links.
pub mod Disk
pub mod Stamp
pub mod Program
pub mod Keeps
pub mod Guarantees
mod Tests
