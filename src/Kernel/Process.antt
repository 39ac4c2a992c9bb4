-- ===== src/Kernel/Process.antt =====
-- src/kernel/task/task.c: processes and threads, how they begin and end, and the heap of a process.
-- `kmalloc` supplies the addresses of new blocks as arguments. The contents of the stacks and the
-- registers are left out; a call of `sched_enqueue` is kept as Thread.antt does.
pub mod Counted
pub mod Exit
pub mod Heapseg
pub mod Sample
mod Tests
use grapes.Prelude.{
  ℕ, zero, suc, ◌+◌, ◌-◌, ◌*◌, ◌^◌, Bool, true, false, ◌&&◌, ◌||◌, not, Option, none, some, List,
  [], ◌∷◌, ltb, leb, ◌==◌, if◌then◌else◌,
}
use grapes.Prelude.Pointers.{Ptr, null, update}
use grapes.Prelude.Runs.{Ran, done, failed, exhausted, Action, within, return, ◌>>=◌, ◌>>◌}
use grapes.Word.{u32, add32, sub32}
use grapes.Kernel.Thread.{Threads as ThreadStates, running}
use grapes.Kernel.Ipc.Store.{Store, Cmd, ok, fault, out_of_fuel}
use grapes.Kernel.Ipc.Object.{obj_new, objdesc_add, obj_closeall}
use grapes.Kernel.Paging.{Paging, pagedir_new}
use grapes.Kernel.Segments.{Segments, simpleseg_make, seg_map, seg_unmap}
use grapes.Kernel.Segments.Shared.{minus, simpleseg_resize}
use grapes.Kernel.Segments.Directories.{pagedir_delete}

-- The kernel's state: memory, objects, `state` of the threads, the other fields of `struct thread`
-- and of `struct process`, and the variables of task.c.
pub record Machine : Type 0 where
  pub segments : Segments
  pub store : Store
  pub threads : ThreadStates
  pub thread_live : Ptr → Bool
  pub process : Ptr → Ptr
  pub next : Ptr → Ptr
  pub user_stack : Ptr → Ptr
  pub process_live : Ptr → Bool
  pub pid : Ptr → ℕ
  pub uid : Ptr → ℕ
  pub privilege : Ptr → ℕ
  pub thread_count : Ptr → ℕ
  pub parent : Ptr → Ptr
  pub pagedir : Ptr → Ptr
  pub stacks_bottom : Ptr → ℕ
  pub heapseg : Ptr → Ptr
  pub next_process : Ptr → Ptr
  pub first_thread : Ptr → Ptr
  pub processes : Ptr
  pub current_thread : Ptr
  pub next_pid : ℕ
  pub manager_object : Ptr

-- What an access to a process or a thread needs: that it is live.
abbrev pub live : {A : Type 0} → Bool → Ran Machine A → Ran Machine A
live true r = r
live false r = failed

-- A command of the memory alone, and one of the objects.
abbrev pub in_segments : {A : Type 0} → Action Segments A → Action Machine A
in_segments f s = within (λ t. record s { segments = t }) (f s.segments)

abbrev pub in_store : {A : Type 0} → Cmd A → Action Machine A
in_store f s = elim (f s.store) [
  | ok a t ↦ done a (record s { store = t })
  | fault ↦ failed
  | out_of_fuel ↦ exhausted
]

-- A command of the links of the threads.
abbrev pub in_next : {A : Type 0} → Action (Ptr → Ptr) A → Action Machine A
in_next f s = within (λ t. record s { next = t }) (f s.next)

-- The loop of `thread_new`: `t` is linked behind the last thread from `it` on.
pub append_loop : (fuel : ℕ) → (t it : Ptr) → (Ptr → Bool) → Action (Ptr → Ptr) (Unit {0})
append_loop zero t it alive links = exhausted
append_loop (suc fuel) t it alive links =
    let rest = append_loop fuel t (links it) alive links in
    if not (alive it)
    then failed
    else if links it == null
    then done tt (update links it t)
    else rest

-- The thread takes its place at the end of the list of its process.
pub join_threads : (fuel : ℕ) → (t p : Ptr) → Action Machine (Unit {0})
join_threads fuel t p s =
    if s.first_thread p == null
    then done tt (record s { first_thread = update s.first_thread p t })
    else in_next (append_loop fuel t (s.first_thread p) s.thread_live) s

abbrev pub user_stack_size : ℕ
user_stack_size = 0x8000

-- The user stack of a new thread; a thread of the kernel or of a driver keeps what its block held.
pub make_stack : (seg map garbage : Ptr) → (t p : Ptr) → Action Machine (Unit {0})
make_stack seg map garbage t p s =
    let bottom = sub32 (s.stacks_bottom p) user_stack_size in
    if leb 2 (s.privilege p)
    then (in_segments (λ g.
            seg_map map seg (s.pagedir p) 0 (simpleseg_make seg bottom user_stack_size true g))
          >>= λ m u. done tt (record u { user_stack = update u.user_stack t m }))
        (record s { stacks_bottom = update s.stacks_bottom p bottom })
    else done tt (record s { user_stack = update s.user_stack t garbage })

-- `thread_new`; `garbage` is what the new block holds
pub thread_new : (fuel : ℕ) → (t seg map garbage : Ptr) → (p : Ptr) → Action Machine Ptr
thread_new fuel t seg map garbage p s = live (s.process_live p) (
    (make_stack seg map garbage t p
        >> (λ u. join_threads fuel t p (record u {
          threads = record u.threads {
            state = update u.threads.state t running;
            enqueued = t ∷ u.threads.enqueued;
          };
        }))
        >> return t)
      (record s {
        thread_live = update s.thread_live t true;
        process = update s.process t p;
        next = update s.next t null;
        thread_count = update s.thread_count p (add32 (s.thread_count p) 1);
      }))

-- `process_new`; the list of threads is what the new block holds. The directories of the list
-- `processes` are those of the page tables.
process_new :
    (p pd root desc1 desc2 garbage kernel_pagedir : Ptr)
    → (parent : Ptr) → (uid privilege : ℕ) → Action Machine Ptr
process_new p pd root desc1 desc2 garbage kernel_pagedir parent uid privilege s =
    let paging = pagedir_new pd kernel_pagedir s.segments.paging in
    let made : Machine = record s {
      process_live = update s.process_live p true;
      pid = update s.pid p s.next_pid;
      next_pid = add32 s.next_pid 1;
      uid = update s.uid p uid;
      thread_count = update s.thread_count p 0;
      privilege = update s.privilege p privilege;
      parent = update s.parent p parent;
      segments = record s.segments {
        paging = paging;
        mapped_segs = update s.segments.mapped_segs pd null;
      };
      pagedir = update s.pagedir p pd;
      next_process = update s.next_process p s.processes;
      stacks_bottom = update s.stacks_bottom p 0xDF000000;
      heapseg = update s.heapseg p null;
      first_thread = update s.first_thread p garbage;
      store = record s.store {
        next_objdesc = update s.store.next_objdesc p 0;
        objects = update s.store.objects p null;
      };
    } in
    (in_store (obj_new root p) >>= λ o u.
    let manager = if u.manager_object == null then o else u.manager_object in
    (in_store (objdesc_add desc1 p o) >>= λ _. in_store (objdesc_add desc2 p manager) >>= λ _ v.
    done p (record v {
      processes = p;
      segments = record v.segments {
        paging = record v.segments.paging { processes = pd ∷ v.segments.paging.processes };
      };
    }))
      (record u { manager_object = manager }))
      made

-- `proc_priv`; `PL_UNKNOWN` is 4
pub proc_priv : Machine → ℕ
proc_priv s =
    if (s.current_thread == null) || (s.process s.current_thread == null)
    then 4
    else s.privilege (s.process s.current_thread)
