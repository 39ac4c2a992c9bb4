-- ===== src/Kernel/Process/Heapseg.antt =====
-- src/kernel/task/task.c: `process_setheapseg`, which defines the heap of a process.
pub mod Covers
use grapes.Prelude.{
  ℕ, zero, suc, ◌+◌, ◌-◌, ◌*◌, ◌^◌, Bool, true, false, ◌&&◌, ◌||◌, not, Option, none, some, List,
  [], ◌∷◌, ltb, leb, ◌==◌, if◌then◌else◌,
}
use grapes.Prelude.Pointers.{Ptr, null, update, remove}
use grapes.Prelude.Runs.{Ran, done, failed, exhausted, Action, return, ◌>>=◌, ◌>>◌}
use grapes.Word.{u32, add32, sub32}
use grapes.Kernel.Ipc.Object.{obj_closeall}
use grapes.Kernel.Segments.{Segments, simpleseg_make, seg_map, seg_unmap}
use grapes.Kernel.Segments.Shared.{minus, simpleseg_resize}
use grapes.Kernel.Segments.Directories.{pagedir_delete}
use grapes.Kernel.Process.{Machine, live, in_segments, in_store, in_next}

-- a new segment for the heap of a process
pub make_heap : (seg map p : Ptr) → (start len : ℕ) → Action Machine ℕ
make_heap seg map p start len s =
    if seg == null
    then done (minus 5) s
    else (in_segments (λ g. seg_map map seg (s.pagedir p) 0 (simpleseg_make seg start len true g))
          >>= λ m u.
              done (if m == null then minus 1 else 0) (record u { heapseg = update u.heapseg p m }))
        s

-- `process_setheapseg` of the process `p` of the current thread
pub process_setheapseg : (fuel : ℕ) → (seg map p : Ptr) → (start stop : ℕ) → Action Machine ℕ
process_setheapseg fuel seg map p start stop s =
    let old = s.heapseg p in
    let len = sub32 stop start in
    if leb 0xE0000000 start || leb 0xE0000000 stop
    then done (minus 1) s
    else if old == null
    then make_heap seg map p start len s
    else if not (s.segments.map_start old == start)
    then (in_segments (seg_unmap fuel old) >> make_heap seg map p start len) s
    else in_segments (simpleseg_resize old len) s
