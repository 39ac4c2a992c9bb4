-- ===== src/Library/Syscall/Tests.antt =====
-- The system calls at concrete arguments.
use grapes.Prelude.{◌≡◌, true, some}
use grapes.Kernel.Syscall.{request_get, Handled, dispatch}
use grapes.Library.Syscall.{stub, returns, result}
use grapes.Library.Syscall.Calls.{stub-dispatch}

stub-dispatch_example :
    (h : Handled) × (dispatch (stub (request_get 1 2 3)) ≡ some h)
    × (h.call ≡ request_get 1 2 3)
    × (returns (request_get 1 2 3) ≡ true → result (λ c. 7) (request_get 1 2 3) ≡ 7)
stub-dispatch_example = stub-dispatch (λ c. 7) (request_get 1 2 3)
