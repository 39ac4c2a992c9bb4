-- ===== src/Kernel/Process/Tests.antt =====
-- A process with the threads 30 and 31.
use grapes.Prelude.{ℕ, ◌+◌, ◌≡◌, refl, ◌<◌, ◌≤◌, ◌⊎◌, inl, true, false, [], ◌∷◌, arith}
use grapes.Prelude.Pointers.{null}
use grapes.Prelude.Runs.{done, failed}
use grapes.Kernel.Thread.{running}
use grapes.Kernel.Segments.Created.{Created}
use grapes.Kernel.Process.{Machine, thread_new, user_stack_size}
use grapes.Kernel.Process.Sample.{machine, no_segments, no_segments-Covers, no_segments-Separate}
use grapes.Kernel.Process.Counted.{Counted, thread_new-Counted}
use grapes.Kernel.Process.Exit.{thread_delete, process_delete}
use grapes.Kernel.Process.Exit.Leaves.{thread_delete-Counted, process_delete-failed}
use grapes.Kernel.Process.Heapseg.{process_setheapseg}
use grapes.Kernel.Process.Heapseg.Covers.{SimpleMap, HasHeap, process_setheapseg_lem}

machine-Counted : Counted 40 (30 ∷ 31 ∷ []) machine
machine-Counted = record {
  lives = refl;
  chain = ground arith;
  apart = ground arith;
  alive = ground arith;
  count = refl;
}

thread_new-Counted_example :
    (u : Machine) × (thread_new 4 32 60 61 0 40 machine ≡ done 32 u)
    × Counted 40 (30 ∷ 31 ∷ 32 ∷ []) u
    × (u.process 32 ≡ 40)
    × (u.threads.state 32 ≡ running)
    × (u.threads.enqueued ≡ 32 ∷ [])
    × (((true ≡ true)
          × (u.user_stack 32 ≡ 61)
          × Created 60 61 50 0xDEFF8000 user_stack_size no_segments u.segments)
        ⊎ ((true ≡ false) × (u.user_stack 32 ≡ 0) × (u.segments ≡ no_segments)))
thread_new-Counted_example =
    thread_new-Counted 4 32 60 61 0 40 (30 ∷ 31 ∷ []) machine machine-Counted (λ e. ground arith)
      refl (omega arith) (omega arith)

thread_delete-Counted_example :
    (u : Machine) × (thread_delete 4 30 machine ≡ done tt u)
    × Counted 40 (31 ∷ []) u
    × (u.thread_live 30 ≡ false)
    × (u.segments ≡ no_segments)
    × (u.current_thread ≡ null)
thread_delete-Counted_example =
    thread_delete-Counted 4 30 40 (30 ∷ 31 ∷ []) machine no_segments machine-Counted refl refl refl
      (omega arith) (omega arith) refl

process_delete-failed_example : process_delete 4 51 52 40 machine ≡ failed
process_delete-failed_example =
    process_delete-failed 4 51 52 30 40 (31 ∷ []) machine no_segments machine-Counted refl
      (omega arith) (omega arith) refl

process_setheapseg_lem_example :
    (u : Machine) × (len : ℕ) × (process_setheapseg 4 60 61 40 0x20000000 0x20110000 machine
      ≡ done 0 u)
    × SimpleMap (u.heapseg 40) true 0x20000000 len u.segments
    × (0x20110000 ≤ 0x20000000 + len)
    × (0x20000000 + len < 0x20110000 + 0x1000)
    × HasHeap 40 0x20000000 len u
process_setheapseg_lem_example =
    process_setheapseg_lem 4 60 61 40 0x20000000 0x20110000 0 machine (λ e. ground arith)
      (λ e. ground arith) refl (omega arith) (omega arith)
      (no_segments-Separate, no_segments-Covers, inl refl)
