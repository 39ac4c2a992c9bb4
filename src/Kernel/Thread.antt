-- ===== src/Kernel/Thread.antt =====
-- The part of src/kernel/task/task.c that blocks threads and wakes them. The calls of
-- `sched_enqueue` are kept in a list, the latest first.
use grapes.Prelude.{ℕ, List, ◌∷◌, ◌==◌, if◌then◌else◌}
use grapes.Prelude.Pointers.{Ptr, update}

-- `TS_RUNNING` and `TS_WAKEWAIT`
abbrev pub running : ℕ
running = 0

abbrev pub wakewait : ℕ
wakewait = 2

pub record Threads : Type 0 where
  pub state : Ptr → ℕ
  pub enqueued : List Ptr

-- `thread_goInactive`, up to the switch to another thread
unfoldable pub go_inactive : Ptr → Threads → Threads
go_inactive t s = record s { state = update s.state t wakewait }

-- `thread_wakeUp`
unfoldable pub wake_up : Ptr → Threads → Threads
wake_up t s =
    if s.state t == wakewait
    then record s { state = update s.state t running; enqueued = t ∷ s.enqueued }
    else s
