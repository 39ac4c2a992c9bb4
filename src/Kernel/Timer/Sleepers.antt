-- ===== src/Kernel/Timer/Sleepers.antt =====
-- The sleeping threads.
use grapes.Prelude.{
  ℕ, ◌≡◌, refl, ◌≢◌, ◌<◌, ◌≤◌, Bool, false, ◌&&◌, ◌||◌, List, [], ◌∷◌, ◌==◌, arith, leb, ap, sym,
  ◌∙◌, if◌then◌else◌, Bool-cases, inl, inr,
}
use grapes.Prelude.Pointers.{Ptr, null, has}
use grapes.Word.{add32}
use grapes.Kernel.Thread.{Threads, running, wakewait, wake_up}
use grapes.Kernel.Timer.{
  Sleeper, Timer, timer_time, insert, thread_sleep, wake_loop, wake_sleeping, count_tick,
  timer_callback,
}

-- Who wakes first stands first; `t` is a time that none is before.
abbrev pub IsSorted : ℕ → List Sleeper → Type 0
IsSorted t [] = Unit
IsSorted t (x ∷ xs) = (t ≤ x.wakeup_time) × IsSorted x.wakeup_time xs

insert-IsSorted :
    (t : ℕ) (x : Sleeper) (xs : List Sleeper)
    → t ≤ x.wakeup_time
    → IsSorted t xs
    → IsSorted t (insert x xs)
unfolding insert
insert-IsSorted t x [] h s = (h, tt)
insert-IsSorted t x (y ∷ ys) h s = elim (Bool-cases (leb x.wakeup_time y.wakeup_time)) [
  | inl before ↦ rw before (h, (ground arith, s.1))
  | inr behind ↦ rw behind (s.0, insert-IsSorted y.wakeup_time x ys (ground arith) s.1)
]

-- the threads whose time has come
abbrev pub due : ℕ → Ptr → List Sleeper → Bool
due time u [] = false
due time u (x ∷ xs) = ((x.thread == u) && leb x.wakeup_time time) || due time u xs

-- the sleepers whose time has not come
abbrev pub later : ℕ → List Sleeper → List Sleeper
later time [] = []
later time (x ∷ xs) = if leb x.wakeup_time time then later time xs else x ∷ later time xs

-- no thread whose time has come
abbrev NoneDue : ℕ → List Sleeper → Type 0
NoneDue time [] = Unit
NoneDue time (x ∷ xs) = (time < x.wakeup_time) × NoneDue time xs

not_due_behind : (time t : ℕ) (xs : List Sleeper) → IsSorted t xs → time < t → NoneDue time xs
not_due_behind time t [] s h = tt
not_due_behind time t (x ∷ xs) s h =
    (omega arith, not_due_behind time x.wakeup_time xs s.1 (omega arith))

due_of_NoneDue : (time : ℕ) (u : Ptr) (xs : List Sleeper) → NoneDue time xs → due time u xs ≡ false
due_of_NoneDue time u [] h = refl
due_of_NoneDue time u (x ∷ xs) h = ground (arith, due_of_NoneDue time u xs h.1)

wake_up_state :
    (w u : Ptr) (t : Threads)
    → (wake_up w t).state u ≡ (if (w == u) && (t.state u == wakewait) then running else t.state u)
unfolding wake_up
wake_up_state w u t = ground arith

wake_loop_state :
    (time lo : ℕ) (u : Ptr) (xs : List Sleeper) (t : Threads)
    → IsSorted lo xs
    → (wake_loop time xs t).1.state u
      ≡ (if due time u xs && (t.state u == wakewait) then running else t.state u)
unfolding wake_loop
wake_loop_state time lo u [] t s = refl
wake_loop_state time lo u (x ∷ xs) t s = elim (Bool-cases (leb x.wakeup_time time)) [
  | inl now ↦ rw now (
      ground (
        arith,
        wake_loop_state time x.wakeup_time u xs (wake_up x.thread t) s.1,
        wake_up_state x.thread u t,
      ))
  | inr later ↦ rw later (
      ground
        (arith, due_of_NoneDue time u xs (not_due_behind time x.wakeup_time xs s.1 (ground arith))))
]

later_of_NoneDue : (time : ℕ) (xs : List Sleeper) → NoneDue time xs → later time xs ≡ xs
later_of_NoneDue time [] h = refl
later_of_NoneDue time (x ∷ xs) h =
    let test : leb x.wakeup_time time ≡ false = ground (arith, h.0) in
    rw test (ap (λ ys. x ∷ ys) (later_of_NoneDue time xs h.1))

wake_loop_left :
    (time lo : ℕ) (xs : List Sleeper) (t : Threads)
    → IsSorted lo xs
    → (wake_loop time xs t).0 ≡ later time xs
unfolding wake_loop
wake_loop_left time lo [] t s = refl
wake_loop_left time lo (x ∷ xs) t s = elim (Bool-cases (leb x.wakeup_time time)) [
  | inl now ↦ rw now (wake_loop_left time x.wakeup_time xs (wake_up x.thread t) s.1)
  | inr behind ↦
      let rest = not_due_behind time x.wakeup_time xs s.1 (ground arith) in
      rw behind (ap (λ ys. x ∷ ys) (sym (later_of_NoneDue time xs rest)))
]

wake_up_enqueued :
    (w u : Ptr) (t : Threads)
    → has u (wake_up w t).enqueued ≡ (((w == u) && (t.state u == wakewait)) || has u t.enqueued)
unfolding wake_up
wake_up_enqueued w u t = ground arith

wake_loop_enqueued :
    (time lo : ℕ) (u : Ptr) (xs : List Sleeper) (t : Threads)
    → IsSorted lo xs
    → has u (wake_loop time xs t).1.enqueued
      ≡ ((due time u xs && (t.state u == wakewait)) || has u t.enqueued)
unfolding wake_loop
wake_loop_enqueued time lo u [] t s = refl
wake_loop_enqueued time lo u (x ∷ xs) t s = elim (Bool-cases (leb x.wakeup_time time)) [
  | inl now ↦ rw now (
      ground (
        arith,
        wake_loop_enqueued time x.wakeup_time u xs (wake_up x.thread t) s.1,
        wake_up_state x.thread u t,
        wake_up_enqueued x.thread u t,
      ))
  | inr behind ↦ rw behind (
      ground
        (arith, due_of_NoneDue time u xs (not_due_behind time x.wakeup_time xs s.1 (ground arith))))
]

-- `thread_sleep` keeps the sleepers in the order of their times, and blocks the thread.
thread_sleep-IsSorted :
    (current : Ptr) (msecs : ℕ) (s : Timer)
    → current ≢ null
    → IsSorted 0 s.sleeping_threads
    → let s' = thread_sleep current msecs s in
      IsSorted 0 s'.sleeping_threads × (s'.threads.state current ≡ wakewait)
unfolding thread_sleep
thread_sleep-IsSorted current msecs s ne sorted =
    let some_thread : (current == null) ≡ false = ground arith in
    rw some_thread (
      insert-IsSorted 0 (record { wakeup_time = add32 (timer_time s) msecs; thread = current })
          s.sleeping_threads (omega arith) sorted,
      ground arith,
    )

count_tick_same :
    (s : Timer)
    → ((count_tick s).sleeping_threads ≡ s.sleeping_threads) × ((count_tick s).threads ≡ s.threads)
unfolding count_tick
count_tick_same s = (ground arith, ground arith)

-- With the sleepers in order, `timer_callback` wakes exactly the blocked threads whose time is at or
-- before the new time, and puts exactly those into the queues; it leaves asleep exactly the sleepers
-- whose time is later, in their order.
pub timer_callback-wakes :
    (s : Timer)
    → IsSorted 0 s.sleeping_threads
    → let now = timer_time (count_tick s) in
      let s' = timer_callback s in
      ((u : Ptr)
        → s'.threads.state u ≡ (
            if due now u s.sleeping_threads && (s.threads.state u == wakewait)
            then running
            else s.threads.state u))
      × ((u : Ptr)
          → has u s'.threads.enqueued ≡ (
              (due now u s.sleeping_threads && (s.threads.state u == wakewait))
              || has u s.threads.enqueued))
      × (s'.sleeping_threads ≡ later now s.sleeping_threads)
unfolding timer_callback wake_sleeping
timer_callback-wakes s sorted =
    let c = count_tick s in
    let now = timer_time c in
    let same = count_tick_same s in
    let sorted' : IsSorted 0 c.sleeping_threads = rw same.0 sorted in
    (
      λ u. ground (
        arith,
        wake_loop_state now 0 u c.sleeping_threads c.threads sorted',
        same,
        ap (due now u) same.0,
      ),
      λ u. ground (
        arith,
        wake_loop_enqueued now 0 u c.sleeping_threads c.threads sorted',
        same,
        ap (due now u) same.0,
      ),
      wake_loop_left now 0 c.sleeping_threads c.threads sorted' ∙ ap (later now) same.0,
    )
