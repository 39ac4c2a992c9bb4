-- ===== src/Kernel/Syscall/Tests.antt =====
-- Runs of the system call table.
use grapes.Prelude.{◌≡◌, refl, true, some, none}
use grapes.Kernel.Syscall.{Registers, request_get, dispatch}

abbrev get_registers : Registers
get_registers = record { eax = 13; ebx = 1; ecx = 2; edx = 3; esi = 4; edi = 5 }

dispatch_get : dispatch get_registers ≡ some (record { call = request_get 1 2 3; answers = true })
unfolding dispatch
dispatch_get = refl

dispatch_large : dispatch (record get_registers { eax = 32 }) ≡ none
unfolding dispatch
dispatch_large = refl
