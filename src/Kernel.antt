-- ===== src/Kernel.antt =====
-- The kernel (src/kernel).
pub mod Sched
pub mod Syscall
pub mod Gdt
pub mod Idt
pub mod Thread
pub mod Timer
pub mod Mutex
pub mod Monitor
pub mod Frames
pub mod Paging
pub mod Segments
pub mod Process
pub mod Ipc
pub mod Heap
pub mod Elf
pub mod Memory
