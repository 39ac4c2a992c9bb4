-- ===== src/Kernel/Timer/Clock.antt =====
-- The clock.
use grapes.Prelude.{ℕ, ◌+◌, ◌*◌, ◌/◌, ◌%◌, ◌≡◌, ◌≢◌, ◌<◌, ◌≤◌, arith}
use native.Mathlib.Decide.{ℕ_discrete}
use native.Mathlib.Nat.{div-add-mod, div-lt_iff_lt-mul, le-div_iff_mul-le, div-mul-le_self}
use grapes.Word.{u32}
use grapes.Kernel.Timer.{
  Timer, divisor_bytes, timer_time, count_tick, timer_callback, wake_sleeping,
}

-- The ticks since the start.
abbrev ticks : Timer → ℕ
ticks s = s.uptime * s.frequency + s.tick

pub record IsValid (s : Timer) : Type 0 where
  pub tick_in : s.tick < s.frequency
  pub frequency_in : s.frequency * 1000 < u32

count_tick_wrap :
    (s : Timer)
    → IsValid s
    → s.uptime + 1 < u32
    → s.tick + 1 ≡ s.frequency
    → count_tick s ≡ record s { uptime = s.uptime + 1; tick = 0 }
unfolding count_tick
count_tick_wrap s v h e = ground (arith, v.frequency_in)

count_tick_step :
    (s : Timer)
    → IsValid s
    → s.tick + 1 ≢ s.frequency
    → count_tick s ≡ record s { tick = s.tick + 1 }
unfolding count_tick
count_tick_step s v ne = ground (arith, v.frequency_in, v.tick_in)

count_tick-ticks :
    (s : Timer)
    → IsValid s
    → s.uptime + 1 < u32
    → IsValid (count_tick s) × (ticks (count_tick s) ≡ ticks s + 1)
count_tick-ticks s v h = elim (ℕ_discrete (s.tick + 1) s.frequency) [
  | yes e ↦
      rw (count_tick_wrap s v h e)
        (record { tick_in = omega (arith, v.tick_in); frequency_in = v.frequency_in }, grind arith)
  | no ne ↦
      rw (count_tick_step s v ne)
        (record { tick_in = omega (arith, v.tick_in); frequency_in = v.frequency_in }, omega arith)
]

-- Each `timer_callback` counts exactly one tick, and keeps the tick below the frequency, as long as
-- the seconds fit their word.
timer_callback-ticks :
    (s : Timer)
    → IsValid s
    → s.uptime + 1 < u32
    → IsValid (timer_callback s) × (ticks (timer_callback s) ≡ ticks s + 1)
unfolding timer_callback wake_sleeping
timer_callback-ticks s v h =
    let counted = count_tick-ticks s v h in
    (record { tick_in = counted.0.tick_in; frequency_in = counted.0.frequency_in }, counted.1)

-- The milliseconds of the ticks within a second.
millis : (t f : ℕ) → t < f → f * 1000 < u32 → t * 1000 % u32 / f < 1000
millis t f h small =
    let e : t * 1000 % u32 ≡ t * 1000 = omega arith in
    rw e ((div-lt_iff_lt-mul {k = f} {x = t * 1000} {y = 1000} (omega arith)).1 (omega arith))

millis_mono : (t f : ℕ) → t + 1 < f → f * 1000 < u32 → t * 1000 % u32 / f ≤ (t + 1) * 1000 % u32 / f
millis_mono t f h small =
    let e : t * 1000 % u32 ≡ t * 1000 = omega arith in
    let e' : (t + 1) * 1000 % u32 ≡ (t + 1) * 1000 = omega arith in
    rw (e, e')
      ((le-div_iff_mul-le {k = f} {x = t * 1000 / f} {y = (t + 1) * 1000} (omega arith)).1
        (omega (arith, div-mul-le_self (t * 1000) f)))

-- As long as the milliseconds fit their word, a tick does not turn the clock back.
timer_time-count_tick :
    (s : Timer)
    → IsValid s
    → s.uptime * 1000 + 2000 < u32
    → timer_time s ≤ timer_time (count_tick s)
unfolding timer_time
timer_time-count_tick s v h = elim (ℕ_discrete (s.tick + 1) s.frequency) [
  | yes e ↦
      rw (count_tick_wrap s v (omega arith) e)
        (omega (arith, millis s.tick s.frequency v.tick_in v.frequency_in))
  | no ne ↦ rw (count_tick_step s v ne) (
      omega (
        arith,
        millis_mono s.tick s.frequency (omega (arith, v.tick_in)) v.frequency_in,
        millis (s.tick + 1) s.frequency (omega (arith, v.tick_in)) v.frequency_in,
      ))
]

-- The two bytes make up the divisor of every frequency from 19 Hz on.
divisor_bytes_lem :
    (freq : ℕ) → 19 ≤ freq → let (l, h) = divisor_bytes freq in l + h * 0x100 ≡ 1193180 / freq
unfolding divisor_bytes
divisor_bytes_lem freq h =
    let small : 1193180 / freq < 0x10000 = grind (arith, div-add-mod 1193180 freq) in omega arith
