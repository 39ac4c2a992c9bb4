-- ===== src/Kernel/Process/Exit.antt =====
-- src/kernel/task/task.c: how threads and processes end.
pub mod Leaves
use grapes.Prelude.{
  ℕ, zero, suc, ◌+◌, ◌-◌, ◌*◌, ◌^◌, Bool, true, false, ◌&&◌, ◌||◌, not, Option, none, some, List,
  [], ◌∷◌, ltb, leb, ◌==◌, if◌then◌else◌,
}
use grapes.Prelude.Pointers.{Ptr, null, update, remove}
use grapes.Prelude.Runs.{Ran, done, failed, exhausted, Action, within, return, ◌>>=◌, ◌>>◌}
use grapes.Word.{u32, add32, sub32}
use grapes.Kernel.Ipc.Object.{obj_closeall}
use grapes.Kernel.Segments.{Segments, simpleseg_make, seg_map, seg_unmap}
use grapes.Kernel.Segments.Shared.{minus, simpleseg_resize}
use grapes.Kernel.Segments.Directories.{pagedir_delete}
use grapes.Kernel.Process.{Machine, live, in_segments, in_store, in_next}

-- The loops of `thread_delete` and `process_delete` over a list, from `it` on: `x` leaves it.
pub leave_loop : (fuel : ℕ) → (x it : Ptr) → (Ptr → Bool) → Action (Ptr → Ptr) (Unit {0})
leave_loop zero x it alive links = if it == null then done tt links else exhausted
leave_loop (suc fuel) x it alive links =
    let rest = leave_loop fuel x (links it) alive links in
    if it == null
    then done tt links
    else if not (alive it)
    then failed
    else if links it == x
    then done tt (update links it (links x))
    else rest

-- The thread leaves the list of its process.
pub leave_threads : (fuel : ℕ) → (t : Ptr) → Action Machine (Unit {0})
leave_threads fuel t s =
    let p = s.process t in
    if s.first_thread p == t
    then done tt (record s { first_thread = update s.first_thread p (s.next t) })
    else in_next (leave_loop fuel t (s.first_thread p) s.thread_live) s

-- The user stack of a thread that has one is unmapped.
pub unmap_stack : (fuel : ℕ) → (map : Ptr) → Action Machine (Unit {0})
unmap_stack fuel map s = if map == null then done tt s else in_segments (seg_unmap fuel map) s

-- `thread_delete`
pub thread_delete : (fuel : ℕ) → (t : Ptr) → Action Machine (Unit {0})
thread_delete fuel t s =
    let p = s.process t in
    live (s.thread_live t) (
      live (s.process_live p) (
        (leave_threads fuel t >> λ u.
        let v : Machine = record u {
          current_thread = if u.current_thread == t then null else u.current_thread;
          thread_count = update u.thread_count p (sub32 (u.thread_count p) 1);
        } in
        (unmap_stack fuel (s.user_stack t) >> λ w.
        done tt (record w { thread_live = update w.thread_live t false }))
          v)
          s))

-- The loop of `process_delete` over the threads, which reads `it->next` after the thread is freed.
pub delete_threads : (n fuel : ℕ) → (it : Ptr) → Action Machine (Unit {0})
delete_threads zero fuel it s = if it == null then done tt s else exhausted
delete_threads (suc n) fuel it s =
    if it == null
    then done tt s
    else (thread_delete fuel it >> λ u.
          live (u.thread_live it) (delete_threads n fuel (u.next it) u))
        s

abbrev in_next_process : {A : Type 0} → Action (Ptr → Ptr) A → Action Machine A
in_next_process f s = within (λ t. record s { next_process = t }) (f s.next_process)

-- The directory of a process that is deleted is none of those that the page tables list.
abbrev forget_pagedir : Ptr → Machine → Machine
forget_pagedir pd s = record s {
  segments = record s.segments {
    paging = record s.segments.paging { processes = remove pd s.segments.paging.processes };
  };
}

-- The process leaves the list `processes`.
leave_processes : (fuel : ℕ) → (p : Ptr) → Action Machine (Unit {0})
leave_processes fuel p s =
    let t = forget_pagedir (s.pagedir p) s in
    if s.processes == p
    then done tt (record t { processes = s.next_process p })
    else in_next_process (leave_loop fuel p s.processes s.process_live) t

-- `process_delete`; `tables_physical` is a page of the directory
pub process_delete :
    (fuel : ℕ) → (kernel_pagedir tables_physical : Ptr) → (p : Ptr) → Action Machine (Unit {0})
process_delete fuel kernel_pagedir tables_physical p s = live (s.process_live p) (
    (delete_threads fuel fuel (s.first_thread p)
        >> in_store (obj_closeall p)
        >> leave_processes fuel p
        >> in_segments (pagedir_delete fuel kernel_pagedir (s.pagedir p) tables_physical)
        >> λ u. done tt (record u { process_live = update u.process_live p false }))
      s)

abbrev ex_th_normal : ℕ
ex_th_normal = 0x10000

abbrev ex_th_exception : ℕ
ex_th_exception = 0x10001

-- `thread_exit2`, up to the switch to another thread
thread_exit2 :
    (fuel : ℕ) → (kernel_pagedir tables_physical : Ptr) → (reason : ℕ) → Action Machine (Unit {0})
thread_exit2 fuel kernel_pagedir tables_physical reason s =
    let t = s.current_thread in
    let p = s.process t in
    if t == null
    then done tt s
    else live (s.thread_live t) (
        if p == null
        then done tt s
        else live (s.process_live p) (
            if ((reason == ex_th_normal) || (reason == ex_th_exception)) && ltb 1 (s.thread_count p)
            then thread_delete fuel t s
            else process_delete fuel kernel_pagedir tables_physical p s))
