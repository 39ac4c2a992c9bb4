-- ===== src/Kernel/Idt.antt =====
-- src/kernel/task/idt.c: the interrupt table, IRQ handlers and the threads that wait for an IRQ.
-- Writes to the interrupt controllers' ports are left out; the addresses of the assembly entry
-- points are arguments.
pub mod Table
pub mod Waiters
mod Tests
use Prim.Native.Nat.{bit_or}
use grapes.Prelude.{
  ℕ, zero, suc, ◌+◌, ◌/◌, ◌%◌, ◌^◌, Bool, true, false, ◌&&◌, ◌||◌, Option, none, some, List, [],
  ◌∷◌, ltb, leb, ◌==◌, if◌then◌else◌,
}
use grapes.Prelude.Pointers.{Ptr, update}
use grapes.Kernel.Thread.{Threads, wake_up, go_inactive}

-- `struct idt_entry`
pub record Entry : Type 0 where
  pub base_lo : ℕ
  pub sel : ℕ
  pub always0 : ℕ
  pub flags : ℕ
  pub base_hi : ℕ

abbrev pub Idt : Type 0
Idt = ℕ → Entry

-- an entry that `memset` has cleared
abbrev pub empty : Entry
empty = record { base_lo = 0; sel = 0; always0 = 0; flags = 0; base_hi = 0 }

-- `idt_setGate`
pub set_gate : (num base sel flags : ℕ) → Idt → Idt
set_gate num base sel flags t i =
    if num == i
    then record {
      base_lo = base % 0x10000;
      base_hi = base / 2 ^ 16 % 0x10000;
      sel = sel;
      always0 = 0;
      flags = bit_or flags 0x60;
    }
    else t i

-- `count` gates from `first` on, for the entry points `handler 0`, `handler 1`, …
pub set_gates : (count first : ℕ) → (ℕ → ℕ) → Idt → Idt
unfolding set_gate
set_gates zero first handler t = t
set_gates (suc n) first handler t =
    set_gate (first + n) (handler n) 0x08 0x8E (set_gates n first handler t)

-- The table of `idt_init`: the 32 exceptions, the 16 IRQs, and the system call.
pub idt_entries : (isr irq : ℕ → ℕ) → (syscall64 : ℕ) → Idt
unfolding set_gate set_gates
idt_entries isr irq syscall64 =
    set_gate 64 syscall64 0x08 0x8E (set_gates 16 32 irq (set_gates 32 0 isr (λ i. empty)))

-- `irq_wakeup` (the newest waiter first), `irq_handlers`, and the threads
pub record Irqs : Type 0 where
  pub irq_wakeup : ℕ → List Ptr
  pub irq_handlers : ℕ → Option ℕ
  pub threads : Threads

-- the `while` of `idt_irqHandler`: every waiter is woken
pub wake_all : List Ptr → Threads → Threads
wake_all [] t = t
wake_all (w ∷ ws) t = wake_all ws (wake_up w t)

-- `idt_irqHandler`, up to the call of the handler and of `tasking_switch`: the new state, the
-- handler to call, and whether to switch.
pub irq_handler : ℕ → Irqs → Irqs × Option ℕ × Bool
unfolding wake_all
irq_handler n s =
    let waiters = s.irq_wakeup n in
    (
      record s { irq_wakeup = update s.irq_wakeup n []; threads = wake_all waiters s.threads },
      s.irq_handlers n,
      (n == 0) || elim waiters [ [] ↦ false | _ ∷ _ ↦ true ],
    )

-- `idt_handleIrq`; the number is an `int`, here its bit pattern
handle_irq : ℕ → ℕ → Irqs → Irqs
handle_irq n func s =
    if ltb n 16 then record s { irq_handlers = update s.irq_handlers n (some func) } else s

-- `PL_DRIVER`
abbrev pub pl_driver : ℕ
pl_driver = 1

-- `idt_waitIrq`, for a thread of privilege `priv`
pub wait_irq : (current : Ptr) → (priv : ℕ) → ℕ → Irqs → Irqs
wait_irq current priv n s =
    if ltb n 16 && leb priv pl_driver
    then record s {
      irq_wakeup = update s.irq_wakeup n (current ∷ s.irq_wakeup n);
      threads = go_inactive current s.threads;
    }
    else s
