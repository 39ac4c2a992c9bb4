-- ===== src/Library/Heap/System.antt =====
-- The kernel of src/kernel/task/task.c as what the heap of an application relies on.
use grapes.Prelude.{ℕ, ◌+◌, ◌%◌, ◌≡◌, ◌≢◌, ◌≤◌, ◌⊎◌, inl, inr, refl, true, ltb, arith, Bool-cases}
use grapes.Prelude.Pointers.{Ptr, null}
use grapes.Prelude.Runs.{done}
use grapes.Kernel.Paging.View.{user_end}
use grapes.Kernel.Segments.Shared.{minus}
use grapes.Kernel.Process.{Machine}
use grapes.Kernel.Process.Heapseg.{process_setheapseg}
use grapes.Kernel.Process.Heapseg.Covers.{
  SimpleMap, HasHeap, process_setheapseg_lem, process_setheapseg-refused,
}
use grapes.Library.Heap.Interface.{SetHeap}

module _ (fuel : ℕ) (seg map p : Ptr) (some_seg : seg ≢ null) (some_map : map ≢ null) where
  -- The heap segment of the process `p` covers the range; with no heap yet, the range is empty.
  abbrev Covered : (start stop : ℕ) → Machine → Type 0
  Covered start stop k =
      (start % 0x1000 ≡ 0)
      × ((len : ℕ) × HasHeap p start len k
          × (((k.heapseg p ≡ null) × (stop ≤ start))
              ⊎ (SimpleMap (k.heapseg p) true start len k.segments × (stop ≤ start + len))))

  -- `proc_setheap` is `process_setheapseg` behind the system call.
  pub system : SetHeap Machine
  system = record { proc_setheap = process_setheapseg fuel seg map p; Backs = Covered; law = law }
    where
      law :
          (start old stop : ℕ) (k : Machine)
          → Covered start old k
          → start ≤ stop
          → (r : ℕ) × (k' : Machine) × (process_setheapseg fuel seg map p start stop k ≡ done r k')
            × (((r ≡ 0) × Covered start stop k') ⊎ ((r ≢ 0) × (k' ≡ k)))
      law start old stop k (aligned, (len, heap, _)) le = elim (Bool-cases (ltb stop user_end)) [
        | inl inside ↦
            let (u, len', run, m, ge, _, heap') =
              process_setheapseg_lem fuel seg map p start stop len k some_seg some_map aligned le
                (ground (arith, inside)) heap in
            (0, u, run, inl (refl, (aligned, (len', heap', inr (m, ge)))))
        | inr beyond ↦ (
          minus 1,
          k,
          process_setheapseg-refused fuel seg map p start stop k (ground (arith, beyond)),
          inr (λ e. absurd (omega arith), refl),
        )
      ]

  -- What the kernel has for a heap backs it.
  pub Covered-Backs :
      (start stop : ℕ) (k : Machine) → Covered start stop k → system.Backs start stop k
  unfolding system
  Covered-Backs start stop k c = c
