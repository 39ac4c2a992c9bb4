-- ===== src/Kernel/Idt/Table.antt =====
-- What the processor reads from the interrupt table.
use grapes.Prelude.{
  ℕ, zero, suc, ◌+◌, ◌*◌, ◌^◌, ◌≡◌, refl, ◌<◌, true, false, ◌&&◌, ◌==◌, arith, ltb, leb, Bool-cases,
  inl, inr,
}
use grapes.Word.{u32}
use grapes.Kernel.Idt.{Entry, Idt, empty, set_gate, set_gates, idt_entries}

abbrev target : Entry → ℕ
target e = e.base_lo + e.base_hi * 2 ^ 16

-- A gate of the kernel's code segment that user mode may enter by `int`.
abbrev IsGate : Entry → ℕ → Type 0
IsGate e handler = (target e ≡ handler) × (e.sel ≡ 0x08) × (e.flags ≡ 0xEE) × (e.always0 ≡ 0)

set_gate_self :
    (n handler : ℕ) (t : Idt) → handler < u32 → IsGate (set_gate n handler 0x08 0x8E t n) handler
unfolding set_gate
set_gate_self n handler t h = let e : (n == n) ≡ true = ground arith in rw e (omega arith)

set_gate_other :
    (n m handler : ℕ) (t : Idt) → (n == m) ≡ false → set_gate n handler 0x08 0x8E t m ≡ t m
unfolding set_gate
set_gate_other n m handler t e = rw e

set_gates-in :
    (count first i : ℕ) (handler : ℕ → ℕ) (t : Idt)
    → ((j : ℕ) → handler j < u32)
    → i < count
    → IsGate (set_gates count first handler t (first + i)) (handler i)
unfolding set_gates
set_gates-in zero first i handler t small h = absurd (omega arith)
set_gates-in (suc n) first i handler t small h = elim (Bool-cases (n == i)) [
  | inl same ↦
      let e : n ≡ i = ground arith in
      rw (← e) (set_gate_self (first + n) (handler n) (set_gates n first handler t) (small n))
  | inr other ↦
      rw
        (set_gate_other (first + n) (first + i) (handler n) (set_gates n first handler t)
          (ground arith))
        (set_gates-in n first i handler t small (ground arith))
]

set_gates-out :
    (count first m : ℕ) (handler : ℕ → ℕ) (t : Idt)
    → (leb first m && ltb m (first + count)) ≡ false
    → set_gates count first handler t m ≡ t m
unfolding set_gates
set_gates-out zero first m handler t h = refl
set_gates-out (suc n) first m handler t h =
    rw (set_gate_other (first + n) m (handler n) (set_gates n first handler t) (ground arith))
      (set_gates-out n first m handler t (ground arith))

module _ (isr irq : ℕ → ℕ) (syscall64 : ℕ) (small_isr : (j : ℕ) → isr j < u32)
    (small_irq : (j : ℕ) → irq j < u32) (small_syscall : syscall64 < u32) where
  -- After `idt_init` the exceptions 0 to 31, the IRQs 32 to 47 and interrupt 64 lead to their entry
  -- points in the kernel's code segment, and no other entry is present.
  idt_entries_lem :
      ((i : ℕ) → i < 32 → IsGate (idt_entries isr irq syscall64 i) (isr i))
      × ((i : ℕ) → i < 16 → IsGate (idt_entries isr irq syscall64 (32 + i)) (irq i))
      × IsGate (idt_entries isr irq syscall64 64) syscall64
      × ((n : ℕ) → 47 < n → (n == 64) ≡ false → idt_entries isr irq syscall64 n ≡ empty)
  unfolding idt_entries
  idt_entries_lem = (
    λ i h. rw (set_gate_other 64 i syscall64 (set_gates 16 32 irq exceptions) (ground arith)) (
        rw (set_gates-out 16 32 i irq exceptions (ground arith)) (
          let e : 0 + i ≡ i = omega arith in
          rw e at (set_gates-in 32 0 i isr (λ j. empty) small_isr h))),
    λ i h.
        rw (set_gate_other 64 (32 + i) syscall64 (set_gates 16 32 irq exceptions) (ground arith))
          (set_gates-in 16 32 i irq exceptions small_irq h),
    set_gate_self 64 syscall64 (set_gates 16 32 irq exceptions) small_syscall,
    λ n h other.
        rw (set_gate_other 64 n syscall64 (set_gates 16 32 irq exceptions) (ground arith)) (
          rw (set_gates-out 16 32 n irq exceptions (ground arith))
            (set_gates-out 32 0 n isr (λ j. empty) (ground arith))),
  )
    where
      exceptions : Idt
      exceptions = set_gates 32 0 isr (λ j. empty)
