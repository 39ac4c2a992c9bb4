-- ===== src/Library/Heap/Tests.antt =====
-- The heap of an application of the sample process, before its first call of `malloc`.
use grapes.Prelude.{ℕ, ◌≡◌, ◌≢◌, inl, inr, refl, Bool, false, List, [], arith}
use grapes.Prelude.Pointers.{null}
use grapes.Prelude.Runs.{done}
use grapes.Kernel.Heap.{Heap}
use grapes.Kernel.Process.{Machine}
use grapes.Kernel.Process.Sample.{machine, no_segments-Covers, no_segments-Separate}
use grapes.Library.Heap.{Application, malloc}
use grapes.Library.Heap.Interface.{SetHeap}
use grapes.Kernel.Heap.Take.{Allocated}
use grapes.Library.Heap.Owned.{base, Usable, malloc-Usable}
use grapes.Library.Heap.System.{Covered-Backs, system}

abbrev empty_heap : Heap
empty_heap = record {
  start_addr = 0;
  end_addr = 0;
  max_end = 0;
  idx = 0;
  index = [];
  overrun = false;
  size = λ a. 0;
  magic = λ a. 0;
  is_hole = λ a. false;
  header = λ a. 0;
  footer_magic = λ a. 0;
}

abbrev application : Application Machine
application = record { heap = empty_heap; heap_ok = false; kernel = machine }

abbrev new_seg : ℕ
new_seg = 60

abbrev new_map : ℕ
new_map = 61

new_seg-some : new_seg ≢ null
new_seg-some e = ground arith

new_map-some : new_map ≢ null
new_map-some e = ground arith

abbrev kernel_calls : SetHeap Machine
kernel_calls = system 4 new_seg new_map 40 new_seg-some new_map-some

backed : kernel_calls.Backs 0x20000000 0 machine
backed =
    Covered-Backs 4 new_seg new_map 40 new_seg-some new_map-some 0x20000000 0 machine
      (refl, (0, (no_segments-Separate, no_segments-Covers, inl refl), inl (refl, omega arith)))

malloc-Usable_example :
    (p : ℕ) × (t : Application Machine) × (bs : List (ℕ × Bool)) × (malloc kernel_calls.proc_setheap
        0x80000 100 application
      ≡ done p t)
    × Usable kernel_calls 5 bs t
    × Allocated base 100 p [] bs
malloc-Usable_example =
    malloc-Usable kernel_calls 0x80000 100 5 [] application (omega arith) (omega arith)
      (omega arith) (inr (refl, refl, (0, backed)))
