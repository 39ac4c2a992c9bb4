-- ===== src/Kernel/Timer/Tests.antt =====
-- The clock and the sleepers at concrete values.
use grapes.Prelude.{◌≡◌, refl, ◌&&◌, ◌||◌, [], ◌∷◌, ◌==◌, arith, if◌then◌else◌}
use grapes.Prelude.Pointers.{Ptr, has}
use grapes.Kernel.Thread.{running, wakewait}
use grapes.Kernel.Timer.{Timer, timer_time, count_tick, timer_callback}
use grapes.Kernel.Timer.Clock.{IsValid}
use grapes.Kernel.Timer.Sleepers.{due, later, timer_callback-wakes}

-- At 30 Hz; thread 5 sleeps until 2000 and thread 6 until 3000.
abbrev timer : Timer
timer = record {
  tick = 29;
  frequency = 30;
  uptime = 1;
  sleeping_threads =
      record { wakeup_time = 2000; thread = 5 } ∷ record { wakeup_time = 3000; thread = 6 } ∷ [];
  threads = record { state = λ t. wakewait; enqueued = [] };
}

timer-IsValid : IsValid timer
timer-IsValid = record { tick_in = omega arith; frequency_in = omega arith }

callback_wakes_one :
    ((timer_callback timer).threads.state 5 ≡ running)
    × ((timer_callback timer).threads.state 6 ≡ wakewait)
    × (timer_time (timer_callback timer) ≡ 2000)
unfolding timer_callback timer_time
callback_wakes_one = (refl, refl, refl)

timer_callback-wakes_example :
    let now = timer_time (count_tick timer) in
    let s = timer_callback timer in
    ((u : Ptr)
      → s.threads.state u ≡ (
          if due now u timer.sleeping_threads && (timer.threads.state u == wakewait)
          then running
          else timer.threads.state u))
    × ((u : Ptr)
        → has u s.threads.enqueued ≡ (
            (due now u timer.sleeping_threads && (timer.threads.state u == wakewait))
            || has u timer.threads.enqueued))
    × (s.sleeping_threads ≡ later now timer.sleeping_threads)
timer_callback-wakes_example = timer_callback-wakes timer (omega arith)
