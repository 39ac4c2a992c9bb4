-- ===== src/Kernel/Idt/Waiters.antt =====
-- The threads that wait for an IRQ.
use grapes.Prelude.{
  ℕ, ◌≡◌, refl, ◌≢◌, ◌<◌, ◌≤◌, true, false, ◌&&◌, List, [], ◌∷◌, ◌==◌, arith, ltb, leb,
  if◌then◌else◌,
}
use grapes.Prelude.Pointers.{Ptr, has}
use grapes.Kernel.Thread.{Threads, running, wakewait, wake_up, go_inactive}
use grapes.Kernel.Idt.{Irqs, wake_all, irq_handler, wait_irq, pl_driver}

wake_up-state :
    (w u : Ptr) (t : Threads)
    → (wake_up w t).state u ≡ (if (w == u) && (t.state u == wakewait) then running else t.state u)
unfolding wake_up
wake_up-state w u t = ground arith

-- Every thread of the list that was blocked runs, and no other thread changes its state.
wake_all-state :
    (ws : List Ptr) (u : Ptr) (t : Threads)
    → (wake_all ws t).state u ≡ (if has u ws && (t.state u == wakewait) then running else t.state u)
unfolding wake_all
wake_all-state [] u t = refl
wake_all-state (w ∷ ws) u t = ground (arith, wake_all-state ws u (wake_up w t), wake_up-state w u t)

-- When IRQ n fires, exactly the blocked threads that wait for it run again; no thread waits for it
-- any more, the waiters of other IRQs stay, and a switch follows if it is the timer or a thread
-- waited.
pub irq_handler_lem :
    (n : ℕ) (s : Irqs)
    → let (s', handler, switch) = irq_handler n s in
      ((u : Ptr)
        → s'.threads.state u ≡ (
            if has u (s.irq_wakeup n) && (s.threads.state u == wakewait)
            then running
            else s.threads.state u))
      × (s'.irq_wakeup n ≡ [])
      × ((m : ℕ) → n ≢ m → s'.irq_wakeup m ≡ s.irq_wakeup m)
      × (handler ≡ s.irq_handlers n)
      × (switch ≡ false → (n ≢ 0) × (s.irq_wakeup n ≡ []))
unfolding irq_handler
irq_handler_lem n s = (
  λ u. wake_all-state (s.irq_wakeup n) u s.threads,
  ground arith,
  λ m ne. ground arith,
  refl,
  λ quiet. ground arith,
)

-- A thread that `idt_waitIrq` has blocked runs again after the IRQ.
pub irq_handler-wait_irq :
    (current : Ptr) (priv n : ℕ) (s : Irqs)
    → priv ≤ pl_driver
    → n < 16
    → ((wait_irq current priv n s).threads.state current ≡ wakewait)
      × ((irq_handler n (wait_irq current priv n s)).0.threads.state current ≡ running)
unfolding wait_irq go_inactive
irq_handler-wait_irq current priv n s p h =
    let blocked : (wait_irq current priv n s).threads.state current ≡ wakewait = ground arith in
    let waits : has current ((wait_irq current priv n s).irq_wakeup n) ≡ true = ground arith in
    (
      blocked,
      ground (arith, (irq_handler_lem n (wait_irq current priv n s)).0 current, blocked, waits),
    )

-- A user thread, or a number that is no IRQ, does not wait.
wait_irq-refused :
    (current : Ptr) (priv n : ℕ) (s : Irqs)
    → (ltb n 16 && leb priv pl_driver) ≡ false
    → wait_irq current priv n s ≡ s
unfolding wait_irq
wait_irq-refused current priv n s h = rw h
