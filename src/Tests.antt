-- ===== src/Tests.antt =====
-- Tests: the theorems of the library applied to concrete states of the kernel.
pub mod Words
pub mod Life
pub mod Rings
pub mod Pages
pub mod Slabs
pub mod Names
pub mod Pipes
pub mod Inodes
pub mod Descriptors
pub mod Processes
