-- ===== src/Kernel/Sched/Tests.antt =====
-- Runs of the scheduler's queues, and its theorems at concrete queues.
use grapes.Prelude.{ℕ, ◌≡◌, refl, some, [], ◌==◌, if◌then◌else◌, arith}
use grapes.Prelude.Pointers.{Ptr, null}
use grapes.Kernel.Sched.{Sched, enqueue, dequeue}
use grapes.Kernel.Sched.Queues
use grapes.Kernel.Sched.Queues.{Queues, Represents, put}
use grapes.Kernel.Sched.Refine.{enqueue_refines, dequeue_refines}

-- `queue` and `last` before any thread is known
abbrev empty : Sched
empty = record { queue = λ _. null; last = λ _. null; queue_next = λ _. null }

abbrev none_wait : Queues
none_wait _ = []

-- the idle thread
abbrev idle : Ptr
idle = 9

abbrev priority : Ptr → ℕ
priority t = if t == 7 then 1 else 3

empty-Represents : Represents empty none_wait
empty-Represents = record {
  holds = λ i. record { chain = refl; tail = refl; distinct = tt };
  apart = λ i j t h ne. refl;
}

enqueue_refines_example :
    Represents (enqueue priority idle 5 empty) (Queues.enqueue priority idle 5 none_wait)
enqueue_refines_example =
    enqueue_refines priority idle 5 empty none_wait empty-Represents (omega arith) (λ i. refl)

-- thread 5 waits, and then 6 and 7
abbrev busy : Sched
busy = enqueue priority idle 7 (enqueue priority idle 6 (enqueue priority idle 5 empty))

abbrev waiting : Queues
waiting =
    Queues.enqueue priority idle 7
      (Queues.enqueue priority idle 6 (Queues.enqueue priority idle 5 none_wait))

busy-Represents : Represents busy waiting
unfolding Queues.enqueue
busy-Represents =
    enqueue_refines priority idle 7 _ _
      (enqueue_refines priority idle 6 _ _ enqueue_refines_first (omega arith) (λ i. ground arith))
      (omega arith) (λ i. ground arith)
  where
    enqueue_refines_first :
        Represents (enqueue priority idle 5 empty) (Queues.enqueue priority idle 5 none_wait)
    enqueue_refines_first =
        enqueue_refines priority idle 5 empty none_wait empty-Represents (omega arith) (λ i. refl)

dequeue_refines_example :
    (s : Sched) × (dequeue priority idle busy ≡ some ((Queues.dequeue idle waiting).0, s))
    × Represents s (Queues.dequeue idle waiting).1
dequeue_refines_example = dequeue_refines priority idle busy waiting busy-Represents

dequeue_priority : (Queues.dequeue idle waiting).0 ≡ 7
unfolding Queues.dequeue Queues.enqueue
dequeue_priority = refl
