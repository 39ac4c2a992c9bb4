-- ===== src/Kernel/Syscall.antt =====
-- src/kernel/task/syscall.c and `idt_syscallHandler` of src/kernel/task/idt.c: which kernel function
-- a system call reaches, and with which registers for its arguments.
mod Tests
use grapes.Prelude.{
  ℕ, Bool, true, false, ◌&&◌, Option, none, some, List, [], ◌∷◌, ltb, get_elem?, if◌then◌else◌,
}

-- the registers of `struct registers` that carry a call
pub record Registers : Type 0 where
  pub eax : ℕ
  pub ebx : ℕ
  pub ecx : ℕ
  pub edx : ℕ
  pub esi : ℕ
  pub edi : ℕ

-- A call of a kernel function with its arguments, in the order of the C declaration.
pub data Call : Type 0 where
  thread_exit : Call
  schedule : Call
  thread_sleep : ℕ → Call
  process_exit : ℕ → Call
  printk : ℕ → Call
  thread_new : ℕ → ℕ → Call
  irq_wait : ℕ → Call
  proc_priv : Call
  shm_create : ℕ → ℕ → Call
  shm_delete : ℕ → Call
  object_create : Call
  object_owned : ℕ → Call
  object_close : ℕ → Call
  request_get : ℕ → ℕ → ℕ → Call
  request_has : ℕ → Call
  request_answer : ℕ → ℕ → ℕ → ℕ → Call
  request_map_shm : ℕ → ℕ → ℕ → Call
  request : ℕ → ℕ → Call
  send_msg : ℕ → ℕ → Call
  proc_setheap : ℕ → ℕ → Call

-- What a table entry does: the call, and whether its value is put into `eax`.
pub record Handled : Type 0 where
  pub call : Call
  pub answers : Bool

abbrev answer : Call → Handled
answer c = record { call = c; answers = true }

-- the macros CALL0V to CALL4V
abbrev no_answer : Call → Handled
no_answer c = record { call = c; answers = false }

-- `syscalls[]`, with the null entry at its end
unfoldable pub syscalls : List (Option (Registers → Handled))
syscalls =
    some (λ r. no_answer thread_exit)
    ∷ some (λ r. no_answer schedule)
    ∷ some (λ r. no_answer (thread_sleep r.ebx))
    ∷ some (λ r. no_answer (process_exit r.ebx))
    ∷ some (λ r. answer (printk r.ebx))
    ∷ some (λ r. no_answer (thread_new r.ebx r.ecx))
    ∷ some (λ r. no_answer (irq_wait r.ebx))
    ∷ some (λ r. answer proc_priv)
    ∷ some (λ r. answer (shm_create r.ebx r.ecx))
    ∷ some (λ r. answer (shm_delete r.ebx))
    ∷ some (λ r. answer object_create)
    ∷ some (λ r. answer (object_owned r.ebx))
    ∷ some (λ r. no_answer (object_close r.ebx))
    ∷ some (λ r. answer (request_get r.ebx r.ecx r.edx))
    ∷ some (λ r. answer (request_has r.ebx))
    ∷ some (λ r. no_answer (request_answer r.ebx r.ecx r.edx r.esi))
    ∷ some (λ r. answer (request_map_shm r.ebx r.ecx r.edx))
    ∷ some (λ r. answer (request r.ebx r.ecx))
    ∷ some (λ r. answer (send_msg r.ebx r.ecx))
    ∷ some (λ r. answer (proc_setheap r.ebx r.ecx))
    ∷ none
    ∷ []

abbrev pub number_of_syscalls : ℕ
number_of_syscalls = 32

abbrev pub entry : Option (Option (Registers → Handled)) → Registers → Option Handled
entry none r = none
entry (some none) r = none
entry (some (some h)) r = some (h r)

-- `idt_syscallHandler`: `none` where no function is called
unfoldable pub dispatch : Registers → Option Handled
unfolding syscalls
dispatch r = if ltb r.eax number_of_syscalls then entry (get_elem? syscalls r.eax) r else none

-- The registers after interrupt 64; `kernel` is the value that a kernel function returns.
unfoldable pub interrupt : (Call → ℕ) → Registers → Registers
interrupt kernel r = elim (dispatch r) [
  | none ↦ r
  | some h ↦ if h.answers then record r { eax = kernel h.call } else r
]
