-- ===== src/Kernel/Memory.antt =====
-- src/kernel/mem/mem.c: what the kernel allocates before it has a heap, and after. The cache of free
-- pages is left out.
pub mod Start
mod Tests
use grapes.Prelude.{ℕ, ◌+◌, ◌*◌, Bool, true, false, Option, none, some, if◌then◌else◌}
use grapes.Word.{add32, page_floor}
use grapes.Kernel.Heap.{Heap, heap_create, heap_alloc, heap_free}

-- `mem_placementAddr`, `kheap_working` and `kheap`
pub record Memory : Type 0 where
  pub placement : ℕ
  pub working : Bool
  pub heap : Heap

-- `KHEAP_IDXSIZE`, `KHEAP_INITSIZE` and `KHEAP_MAXSIZE`
abbrev pub kheap_idxsize : ℕ
kheap_idxsize = 0x1000

abbrev pub kheap_initsize : ℕ
kheap_initsize = 0x8000

abbrev pub kheap_maxsize : ℕ
kheap_maxsize = 0x08000000

-- `kheap_init`
pub kheap_init : Memory → Memory
kheap_init s = record s {
  heap =
      heap_create (add32 (page_floor s.placement) 0x1000) kheap_idxsize kheap_initsize kheap_maxsize
        s.heap;
  working = true;
}

abbrev with_heap : Memory → Option (ℕ × Heap) → Option (ℕ × Memory)
with_heap s none = none
with_heap s (some (p, h)) = some (p, record s { heap = h })

-- `kmalloc`, with the calls of itself that `heap_alloc` has left
pub kmalloc : (fuel size : ℕ) → Memory → Option (ℕ × Memory)
kmalloc fuel size s =
    if s.working
    then with_heap s (heap_alloc fuel size s.heap)
    else some (s.placement, record s { placement = add32 s.placement size })

abbrev with_freed : Memory → Option Heap → Option Memory
with_freed s none = none
with_freed s (some h) = some (record s { heap = h })

-- `kfree`
kfree : ℕ → Memory → Option Memory
kfree p s = if s.working then with_freed s (heap_free p s.heap) else some s
