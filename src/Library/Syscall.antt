-- ===== src/Library/Syscall.antt =====
-- src/library/gc/syscall.c: the functions that applications call.
pub mod Calls
mod Tests
use grapes.Prelude.{ℕ, Bool, true, false}
use grapes.Kernel.Syscall.{
  Registers, Call, interrupt, thread_exit, schedule, thread_sleep, process_exit, printk, thread_new,
  irq_wait, proc_priv, shm_create, shm_delete, object_create, object_owned, object_close,
  request_get, request_has, request_answer, request_map_shm, request, send_msg, proc_setheap,
}

-- The registers that `call` loads before `int $64`.
abbrev pub call : ℕ → ℕ → ℕ → ℕ → ℕ → ℕ → Registers
call a b c d e f = record { eax = a; ebx = b; ecx = c; edx = d; esi = e; edi = f }

-- The library function of each name.
pub stub : Call → Registers
stub thread_exit = call 0 0 0 0 0 0
stub schedule = call 1 0 0 0 0 0
stub (thread_sleep a) = call 2 a 0 0 0 0
stub (process_exit a) = call 3 a 0 0 0 0
stub (printk a) = call 4 a 0 0 0 0
stub (thread_new a b) = call 5 a b 0 0 0
stub (irq_wait a) = call 6 a 0 0 0 0
stub proc_priv = call 7 0 0 0 0 0
stub (shm_create a b) = call 8 a b 0 0 0
stub (shm_delete a) = call 9 a 0 0 0 0
stub object_create = call 10 0 0 0 0 0
stub (object_owned a) = call 11 a 0 0 0 0
stub (object_close a) = call 12 a 0 0 0 0
stub (request_get a b c) = call 13 a b c 0 0
stub (request_has a) = call 14 a 0 0 0 0
stub (request_answer a b c d) = call 15 a b c d 0
stub (request_map_shm a b c) = call 16 a b c 0 0
stub (request a b) = call 17 a b 0 0 0
stub (send_msg a b) = call 18 a b 0 0 0
stub (proc_setheap a b) = call 19 a b 0 0 0

-- Whether the library function returns what `call` gives.
pub returns : Call → Bool
returns thread_exit = false
returns schedule = false
returns (thread_sleep a) = false
returns (process_exit a) = false
returns (printk a) = false
returns (thread_new a b) = false
returns (irq_wait a) = false
returns proc_priv = true
returns (shm_create a b) = true
returns (shm_delete a) = true
returns object_create = true
returns (object_owned a) = true
returns (object_close a) = false
returns (request_get a b c) = true
returns (request_has a) = true
returns (request_answer a b c d) = false
returns (request_map_shm a b c) = true
returns (request a b) = true
returns (send_msg a b) = true
returns (proc_setheap a b) = true

-- The value of a library function, given what the kernel functions return.
pub result : (Call → ℕ) → Call → ℕ
unfolding stub
result kernel c = (interrupt kernel (stub c)).eax
