-- ===== src/Kernel/Idt/Tests.antt =====
-- The interrupt table and the waiting threads at concrete values.
use grapes.Prelude.{ℕ, ◌≡◌, ◌≢◌, false, ◌&&◌, ◌==◌, none, [], ◌∷◌, if◌then◌else◌}
use grapes.Prelude.Pointers.{Ptr, has}
use grapes.Kernel.Thread.{running, wakewait}
use grapes.Kernel.Idt.{Irqs, irq_handler}
use grapes.Kernel.Idt.Waiters.{irq_handler_lem}

abbrev isr : ℕ → ℕ
isr i = 0xE010_0000

abbrev irq : ℕ → ℕ
irq i = 0xE010_1000

abbrev quiet : Irqs
quiet = record {
  irq_wakeup = λ n. [];
  irq_handlers = λ n. none;
  threads = record { state = λ t. running; enqueued = [] };
}

-- Thread 7 waits for the keyboard.
abbrev waiting : Irqs
waiting = record {
  irq_wakeup = λ n. if n == 1 then 7 ∷ [] else [];
  irq_handlers = λ n. none;
  threads = record { state = λ t. if t == 7 then wakewait else running; enqueued = [] };
}

abbrev one : ℕ
one = 1

irq_handler_lem_example :
    let (s', handler, switch) = irq_handler 1 waiting in
    ((u : Ptr)
      → s'.threads.state u ≡ (
          if has u (7 ∷ []) && (waiting.threads.state u == wakewait)
          then running
          else waiting.threads.state u))
    × (s'.irq_wakeup 1 ≡ [])
    × ((m : ℕ) → one ≢ m → s'.irq_wakeup m ≡ waiting.irq_wakeup m)
    × (handler ≡ none)
    × (switch ≡ false → (one ≢ 0) × (waiting.irq_wakeup 1 ≡ []))
irq_handler_lem_example = irq_handler_lem 1 waiting
