-- ===== src/Library/Syscall/Calls.antt =====
-- The library's functions and the kernel's table agree on numbers, registers and results.
use grapes.Prelude.{
  ℕ, zero, suc, ◌-◌, ◌≡◌, refl, ◌≤◌, true, false, none, some, arith, ltb, get_elem?, Bool-cases,
  inl, inr,
}
use grapes.Kernel.Syscall.{
  Registers, Call, thread_exit, schedule, thread_sleep, process_exit, printk, thread_new, irq_wait,
  proc_priv, shm_create, shm_delete, object_create, object_owned, object_close, request_get,
  request_has, request_answer, request_map_shm, request, send_msg, proc_setheap, dispatch,
  interrupt, Handled, syscalls, entry, number_of_syscalls,
}
use grapes.Library.Syscall.{stub, returns, result}

-- Every library function reaches the kernel function of its name, with its arguments in their
-- places, and what it returns, if it returns something, is that function's value.
pub stub-dispatch :
    (kernel : Call → ℕ) (c : Call)
    → (h : Handled) × (dispatch (stub c) ≡ some h)
      × (h.call ≡ c)
      × (returns c ≡ true → result kernel c ≡ kernel c)
unfolding stub dispatch returns result interrupt
stub-dispatch kernel thread_exit =
    (record { call = thread_exit; answers = false }, refl, refl, λ e. cc)
stub-dispatch kernel schedule = (record { call = schedule; answers = false }, refl, refl, λ e. cc)
stub-dispatch kernel (thread_sleep a) =
    (record { call = (thread_sleep a); answers = false }, refl, refl, λ e. cc)
stub-dispatch kernel (process_exit a) =
    (record { call = (process_exit a); answers = false }, refl, refl, λ e. cc)
stub-dispatch kernel (printk a) =
    (record { call = (printk a); answers = true }, refl, refl, λ e. refl)
stub-dispatch kernel (thread_new a b) =
    (record { call = (thread_new a b); answers = false }, refl, refl, λ e. cc)
stub-dispatch kernel (irq_wait a) =
    (record { call = (irq_wait a); answers = false }, refl, refl, λ e. cc)
stub-dispatch kernel proc_priv =
    (record { call = proc_priv; answers = true }, refl, refl, λ e. refl)
stub-dispatch kernel (shm_create a b) =
    (record { call = (shm_create a b); answers = true }, refl, refl, λ e. refl)
stub-dispatch kernel (shm_delete a) =
    (record { call = (shm_delete a); answers = true }, refl, refl, λ e. refl)
stub-dispatch kernel object_create =
    (record { call = object_create; answers = true }, refl, refl, λ e. refl)
stub-dispatch kernel (object_owned a) =
    (record { call = (object_owned a); answers = true }, refl, refl, λ e. refl)
stub-dispatch kernel (object_close a) =
    (record { call = (object_close a); answers = false }, refl, refl, λ e. cc)
stub-dispatch kernel (request_get a b c) =
    (record { call = (request_get a b c); answers = true }, refl, refl, λ e. refl)
stub-dispatch kernel (request_has a) =
    (record { call = (request_has a); answers = true }, refl, refl, λ e. refl)
stub-dispatch kernel (request_answer a b c d) =
    (record { call = (request_answer a b c d); answers = false }, refl, refl, λ e. cc)
stub-dispatch kernel (request_map_shm a b c) =
    (record { call = (request_map_shm a b c); answers = true }, refl, refl, λ e. refl)
stub-dispatch kernel (request a b) =
    (record { call = (request a b); answers = true }, refl, refl, λ e. refl)
stub-dispatch kernel (send_msg a b) =
    (record { call = (send_msg a b); answers = true }, refl, refl, λ e. refl)
stub-dispatch kernel (proc_setheap a b) =
    (record { call = (proc_setheap a b); answers = true }, refl, refl, λ e. refl)

-- Behind the twenty functions the table holds nothing.
table_end :
    (n : ℕ) (r : Registers)
    → entry
        (get_elem? syscalls (
          suc (
            suc (
              suc (
                suc (
                  suc (
                    suc (
                      suc (
                        suc (
                          suc (
                            suc (
                              suc
                                (suc (suc (suc (suc (suc (suc (suc (suc (suc n)))))))))))))))))))))
        r
      ≡ none
unfolding syscalls
table_end zero r = refl
table_end (suc n) r = refl

no_entry : (n : ℕ) (r : Registers) → 20 ≤ n → entry (get_elem? syscalls n) r ≡ none
no_entry n r h =
    let e : n
        ≡ suc (
            suc (
              suc (
                suc (
                  suc (
                    suc (
                      suc (
                        suc (
                          suc (
                            suc (
                              suc (
                                suc (
                                  suc
                                    (suc (suc (suc (suc (suc (suc (suc (n - 20)))))))))))))))))))) =
      omega arith in
    rw e (table_end (n - 20) r)

-- A number that no library function uses calls nothing and leaves the registers as they were.
interrupt_unknown : (kernel : Call → ℕ) (r : Registers) → 20 ≤ r.eax → interrupt kernel r ≡ r
unfolding interrupt dispatch
interrupt_unknown kernel r h = elim (Bool-cases (ltb r.eax number_of_syscalls)) [
  | inl small ↦ ground (arith, no_entry r.eax r h)
  | inr large ↦ ground arith
]
