-- ===== src/Kernel/Mutex.antt =====
-- src/kernel/lib/mutex.c. The exchange is one atomic step; `thread_sleep(1)` between two attempts
-- is where other threads run.
pub mod Exclusion
mod Tests
use grapes.Prelude.{ℕ, Bool, true, false, ◌==◌, if◌then◌else◌}

abbrev pub locked : ℕ
locked = 1

abbrev pub unlocked : ℕ
unlocked = 0

-- `atomic_exchange`: the old value, and the new one in memory
atomic_exchange : ℕ → ℕ → ℕ × ℕ
atomic_exchange mem newval = (mem, newval)

-- `mutex_lockE`, and one round of the loop of `mutex_lock`: whether the mutex was taken
pub lock_e : ℕ → Bool × ℕ
unfolding atomic_exchange
lock_e mem =
    let (old, mem') = atomic_exchange mem locked in (if old == locked then false else true, mem')

-- `mutex_unlock`
pub unlock : ℕ → ℕ
unlock mem = unlocked
