-- ===== src/Kernel/Ipc.antt =====
-- Objects, requests and shared memory (src/kernel/ipc).
pub mod Store
pub mod Object
pub mod Request
pub mod Send
