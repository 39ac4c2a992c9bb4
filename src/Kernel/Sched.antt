-- ===== src/Kernel/Sched.antt =====
-- src/kernel/task/sched.c: four queues of threads, linked through `queue_next`. A failed ASSERT
-- is `none`: the system stops.
pub mod Queues
pub mod Refine
mod Tests
use grapes.Prelude.{
  ℕ, zero, suc, ◌+◌, Bool, true, false, ◌&&◌, ◌||◌, not, Option, none, some, ◌==◌, if◌then◌else◌,
}
use grapes.Prelude.Pointers.{Ptr, null, update}

abbrev pub priorities : ℕ
priorities = 4

-- `queue`, `last`, and the field `queue_next` of every thread
pub record Sched : Type 0 where
  pub queue : ℕ → Ptr
  pub last : ℕ → Ptr
  pub queue_next : Ptr → Ptr

-- `sched_enqueueIn`
pub enqueue_in : Ptr → ℕ → Sched → Sched
enqueue_in t qid s =
    if s.queue qid == null
    then record s {
      queue_next = update s.queue_next t null;
      queue = update s.queue qid t;
      last = update s.last qid t;
    }
    else record s {
      queue_next = update (update s.queue_next t null) (s.last qid) t;
      last = update s.last qid t;
    }

-- the condition of the ASSERT in `sched_dequeueFrom`
consistent : Ptr → ℕ → Sched → Bool
consistent it qid s = ((s.queue_next it == null) && (it == s.last qid)) || not (it == s.last qid)

-- `sched_dequeueFrom`; a null pointer is returned from an empty queue
pub dequeue_from : ℕ → Sched → Option (Ptr × Sched)
unfolding consistent
dequeue_from qid s =
    let it = s.queue qid in
    let rest = s.queue_next it in
    if it == null
    then some (null, s)
    else (if consistent it qid s
        then some (
          it,
          record s {
            queue = update s.queue qid rest;
            last = if rest == null then update s.last qid null else s.last;
          },
        )
        else none)

-- The priority of a thread is the privilege of its process; `idle` is the idle thread.
module _ (priority : Ptr → ℕ) (idle : Ptr) where
  -- `sched_enqueue`
  pub enqueue : Ptr → Sched → Sched
  unfolding enqueue_in
  enqueue t s = if t == idle then s else enqueue_in t (priority t) s

  -- the loop of `sched_dequeue`, with the queues left to look at
  pub dequeue_loop : ℕ → ℕ → Sched → Option (Ptr × Sched)
  unfolding dequeue_from
  dequeue_loop zero i s = some (idle, s)
  dequeue_loop (suc n) i s = elim (dequeue_from i s) [
    | none ↦ none
    | some (it, s') ↦ elim (it == null) [ true ↦ dequeue_loop n (i + 1) s' | false ↦ some (it, s') ]
  ]

  -- `sched_dequeue`
  pub dequeue : Sched → Option (Ptr × Sched)
  unfolding dequeue_loop
  dequeue s = dequeue_loop priorities 0 s
