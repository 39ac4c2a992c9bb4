-- ===== src/Kernel/Memory/Tests.antt =====
-- The first allocation in the kernel's heap.
use grapes.Prelude.{ℕ, ◌≡◌, ◌<◌, Bool, true, false, some, List, [], ◌∷◌, arith}
use grapes.Kernel.Heap.{Heap}
use grapes.Kernel.Heap.Take.{Allocated}
use grapes.Kernel.Heap.Alloc.{Rowed}
use grapes.Kernel.Memory.{Memory, kheap_init, kmalloc}
use grapes.Kernel.Memory.Start.{heap_base, kmalloc-Allocated}

abbrev no_heap : Heap
no_heap = record {
  start_addr = 0;
  end_addr = 0;
  max_end = 0;
  idx = 0;
  index = [];
  overrun = false;
  size = λ a. 0;
  magic = λ a. 0;
  is_hole = λ a. false;
  header = λ a. 0;
  footer_magic = λ a. 0;
}

abbrev early : Memory
early = record { placement = 0xE0012345; working = false; heap = no_heap }

kmalloc-Allocated_example :
    (0xE0012345 < heap_base 0xE0012345)
    × ((p : ℕ) × (t : Memory) × (hi : ℕ) × (bs : List (ℕ × Bool)) × (kmalloc 0x8000 100
            (kheap_init early)
          ≡ some (p, t))
        × Rowed (heap_base 0xE0012345) hi bs t.heap
        × (t.heap.overrun ≡ false)
        × Allocated (heap_base 0xE0012345) 100 p ((0x8000, true) ∷ []) bs)
kmalloc-Allocated_example = kmalloc-Allocated 0x8000 100 early (omega arith) (omega arith)
