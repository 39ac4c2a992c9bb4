-- ===== src/Library.antt =====
-- The userland library (src/library).
pub mod Shm
pub mod Heap
pub mod Syscall
pub mod Server
pub mod Strings
