-- ===== src/Library/Heap/Interface.antt =====
-- What the heap of an application relies on of the system call `proc_setheap`.
use grapes.Prelude.{ℕ, ◌≡◌, ◌≢◌, ◌≤◌, ◌⊎◌}
use grapes.Prelude.Runs.{done, Action}

-- `Backs start stop k`: in the state `k`, memory backs the addresses from `start` to `stop`. A call
-- for the same start returns; it returns 0 when the new range is backed, and otherwise changes
-- nothing.
pub record SetHeap (K : Type 0) : Type 1 where
  pub proc_setheap : (start stop : ℕ) → Action K ℕ
  pub Backs : (start stop : ℕ) → K → Type 0
  pub law :
      (start old stop : ℕ) (k : K)
      → Backs start old k
      → start ≤ stop
      → (r : ℕ) × (k' : K) × (proc_setheap start stop k ≡ done r k')
        × (((r ≡ 0) × Backs start stop k') ⊎ ((r ≢ 0) × (k' ≡ k)))
