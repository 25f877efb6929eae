-- ===== src/Simplefs.antt =====
-- simplefs-code: a file system of 8 inodes and 30 data blocks in one disk file, and its open files.
mod Tests
pub mod Disk
pub mod Ops
pub mod Access
pub mod Valid
pub mod Parts
pub mod Grow
pub mod Reading
pub mod Appended
pub mod Free
pub mod Writing
pub mod Rounds
pub mod Written
pub mod RoundTrip
pub mod Removing
pub mod Names
pub mod Deleting
pub mod Creating
pub mod Handles
pub mod Overrun
