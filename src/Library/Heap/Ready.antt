-- ===== src/Library/Heap/Ready.antt =====
-- The first call of `malloc` gets memory for the heap, or none.
use grapes.Prelude.{ℕ, ◌≡◌, ◌⊎◌, inl, inr, refl, ap, Bool, true, false, if◌then◌else◌, arith}
use grapes.Prelude.Runs.{done}
use grapes.Kernel.Heap as KernelHeap
use grapes.Kernel.Heap.{
  Heap, heap_magic, heap_min_size, find_hole, take_hole, excess, footer_size, header_size,
  unify_left, unify_right, idx_insert, idx_remove,
}
use grapes.Kernel.Heap.Fields.{heap_create-bounds}
use grapes.Library.Heap.{Application, with_heap, heap_create, heap_alloc, first_malloc, malloc}
use grapes.Library.Heap.Interface.{SetHeap}
use grapes.Library.Heap.Backed.{Backed, setheapseg_lem}

module _ {K : Type 0} (calls : SetHeap K) where
  -- What `heap_create` makes of the memory that it gets.
  abbrev pub Created : Heap → Type 0
  Created h' =
      (h : Heap) × (h' ≡ KernelHeap.heap_create 0x20000000 0x00010000 0x00100000 0x4F000000 h)

  pub heap_create-Backed :
      (s : Application K) (old : ℕ)
      → calls.Backs 0x20000000 old s.kernel
      → (failure : Bool) × (t : Application K) × (heap_create calls.proc_setheap 0x20000000
            0x00010000 0x00100000 0x4F000000 s
          ≡ done failure t)
        × (t.heap_ok ≡ s.heap_ok)
        × (((failure ≡ false) × Backed calls t × Created t.heap)
            ⊎ ((failure ≡ true) × ((old' : ℕ) × calls.Backs 0x20000000 old' t.kernel)))
  unfolding heap_create
  heap_create-Backed s old backs =
      let h1 : Heap = record s.heap {
        start_addr = 0x20010000;
        end_addr = 0x20110000;
        max_end = 0x6F010000;
      } in
      let (failure, k, run, result) =
        setheapseg_lem calls 0x20000000 old 0x20110000 (with_heap h1 s) backs (omega arith) in
      let (start_addr, end_addr, max_end, idx) =
        heap_create-bounds 0x20000000 0x00010000 0x00100000 0x4F000000 h1 in
      elim result [
        | inr (bad, same) ↦ (
          true,
          record s { heap = h1; kernel = k },
          rw (run, bad) refl,
          refl,
          inr (refl, (old, rw same backs)),
        )
        | inl (ok, backs') ↦ (
          false,
          record s {
            heap = KernelHeap.heap_create 0x20000000 0x00010000 0x00100000 0x4F000000 h1;
            kernel = k;
          },
          rw (run, ok) refl,
          refl,
          inl (
            refl,
            record {
              backs = rw (idx, end_addr) backs';
              index = omega (arith, idx, start_addr);
              blocks = omega (arith, start_addr, end_addr);
              limit = omega (arith, max_end, end_addr);
              low = omega (arith, max_end);
            },
            (h1, refl),
          ),
        )
      ]

  pub malloc_lem :
      (fuel size : ℕ) (s : Application K) (created : Bool)
      → s.heap_ok ≡ created
      → malloc calls.proc_setheap fuel size s ≡ (
          if created
          then heap_alloc calls.proc_setheap fuel size s
          else first_malloc calls.proc_setheap fuel size s)
  unfolding malloc
  malloc_lem fuel size s created e =
      ap
        (λ c.
          if c
          then heap_alloc calls.proc_setheap fuel size s
          else first_malloc calls.proc_setheap fuel size s)
        e
