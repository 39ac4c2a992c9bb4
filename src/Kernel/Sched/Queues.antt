-- ===== src/Kernel/Sched/Queues.antt =====
-- The scheduler that sched.c implements: for each priority the waiting threads, first come first
-- served.
use grapes.Prelude.{
  ℕ, zero, suc, ◌+◌, ◌≡◌, ◌≢◌, List, [], ◌∷◌, ◌++◌, true, false, ◌==◌, if◌then◌else◌,
}
use grapes.Prelude.Pointers.{Ptr, Chain, Distinct, last, has}
use grapes.Kernel.Sched.{Sched, priorities}

abbrev pub Queues : Type 0
Queues = ℕ → List Ptr

-- One queue of the program holds the threads of a list, in order.
pub record Holds (s : Sched) (qid : ℕ) (xs : List Ptr) : Type 0 where
  pub chain : Chain s.queue_next (s.queue qid) xs
  pub tail : s.last qid ≡ last xs
  pub distinct : Distinct xs

-- The queues of the program stand for lists, and no thread is in two of them.
pub record Represents (s : Sched) (qs : Queues) : Type 0 where
  pub holds : (i : ℕ) → Holds s i (qs i)
  pub apart : (i j : ℕ) (t : Ptr) → has t (qs i) ≡ true → i ≢ j → has t (qs j) ≡ false

abbrev pub put : Queues → ℕ → List Ptr → Queues
put qs i xs j = if i == j then xs else qs j

-- behind the others of its priority, unless it is the idle thread
unfoldable pub enqueue : (Ptr → ℕ) → Ptr → Ptr → Queues → Queues
enqueue priority idle t qs =
    if t == idle then qs else put qs (priority t) (qs (priority t) ++ t ∷ [])

-- the first thread of the first queue that is not empty, or the idle thread
unfoldable pub dequeue_loop : Ptr → ℕ → ℕ → Queues → Ptr × Queues
dequeue_loop idle zero i qs = (idle, qs)
dequeue_loop idle (suc n) i qs = elim (qs i) [
  | [] ↦ dequeue_loop idle n (i + 1) qs
  | x ∷ xs ↦ (x, put qs i xs)
]

unfoldable pub dequeue : Ptr → Queues → Ptr × Queues
unfolding dequeue_loop
dequeue idle qs = dequeue_loop idle priorities 0 qs
