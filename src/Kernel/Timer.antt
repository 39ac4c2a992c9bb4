-- ===== src/Kernel/Timer.antt =====
-- src/kernel/task/timer.c: the clock and the threads that sleep. The list of sleepers is a list;
-- `kmalloc` of its nodes is taken to succeed.
pub mod Clock
pub mod Sleepers
mod Tests
use grapes.Prelude.{ℕ, zero, suc, ◌+◌, ◌*◌, ◌/◌, ◌%◌, List, [], ◌∷◌, ltb, leb, ◌==◌, if◌then◌else◌}
use grapes.Prelude.Pointers.{Ptr, null}
use grapes.Word.{u32, add32}
use grapes.Kernel.Thread.{Threads, wake_up, go_inactive}

-- `struct sleeping_thread`
pub record Sleeper : Type 0 where
  pub wakeup_time : ℕ
  pub thread : Ptr

pub record Timer : Type 0 where
  pub tick : ℕ
  pub frequency : ℕ
  pub uptime : ℕ
  pub sleeping_threads : List Sleeper
  pub threads : Threads

-- The two bytes that `timer_init` sends to the timer chip.
pub divisor_bytes : ℕ → ℕ × ℕ
divisor_bytes freq = let divisor = 1193180 / freq in (divisor % 0x100, divisor / 0x100 % 0x100)

-- `timer_init`: the state
timer_init : ℕ → Timer → Timer
timer_init freq s = record s { frequency = freq }

-- `timer_time`
pub timer_time : Timer → ℕ
timer_time s = add32 (s.uptime * 1000 % u32) (s.tick * 1000 % u32 / s.frequency)

-- The place of a new sleeper: before the first that wakes no earlier.
pub insert : Sleeper → List Sleeper → List Sleeper
insert x [] = x ∷ []
insert x (y ∷ ys) = if leb x.wakeup_time y.wakeup_time then x ∷ y ∷ ys else y ∷ insert x ys

-- `thread_sleep`, up to the switch to another thread
pub thread_sleep : (current : Ptr) → ℕ → Timer → Timer
unfolding insert go_inactive timer_time
thread_sleep current msecs s =
    if current == null
    then s
    else (let sf : Sleeper = record {
      wakeup_time = add32 (timer_time s) msecs;
      thread = current;
    } in
        record s {
          sleeping_threads = insert sf s.sleeping_threads;
          threads = go_inactive current s.threads;
        })

-- The loop of `timer_wakeUpSleepingThreads`: who is left asleep, and the threads.
pub wake_loop : ℕ → List Sleeper → Threads → List Sleeper × Threads
unfolding wake_up
wake_loop time [] t = ([], t)
wake_loop time (x ∷ xs) t =
    let rest = wake_loop time xs (wake_up x.thread t) in
    if leb x.wakeup_time time then rest else (x ∷ xs, t)

-- `timer_wakeUpSleepingThreads`
pub wake_sleeping : Timer → Timer
unfolding wake_loop
wake_sleeping s =
    let (left, t) = wake_loop (timer_time s) s.sleeping_threads s.threads in
    record s { sleeping_threads = left; threads = t }

-- the counting of `timer_callback`
pub count_tick : Timer → Timer
count_tick s =
    let t = add32 s.tick 1 in
    if t == s.frequency
    then record s { uptime = add32 s.uptime 1; tick = 0 }
    else record s { tick = t }

-- `timer_callback`
pub timer_callback : Timer → Timer
unfolding count_tick wake_sleeping
timer_callback s = wake_sleeping (count_tick s)
