-- ===== src/FlareFs.antt =====
-- kernel/fs/ext4.c, its writable part: FlareFS, a flat directory of 32 files on a region of the disk.
-- A pointer argument is not NULL. A text is the characters of a C string before its NUL. Files in
-- memory are held by value, with `size` the length of `bytes`; `kmalloc` never fails.
pub mod State
pub mod Encoding
pub mod Io
pub mod Ops
pub mod Mount
pub mod Cases
pub mod Names
pub mod Lookup
pub mod Failure
pub mod Removal
pub mod Sectors
pub mod Placed
pub mod Reuse
mod Tests
mod Examples
