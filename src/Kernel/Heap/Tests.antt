-- ===== src/Kernel/Heap/Tests.antt =====
-- An index of three holes.
use grapes.Prelude.{
  ℕ, ◌≡◌, true, some, refl, ◌-◌, Bool, List, [], ◌∷◌, ◌==◌, if◌then◌else◌, arith, false, inl, none,
  ◌⊎◌, ◌<◌, ◌≤◌,
}
use grapes.Kernel.Heap.{Heap, heap_create, heap_alloc, excess, find_hole}
use grapes.Kernel.Heap.Room.{Spare, heap_create-Spare}
use grapes.Kernel.Heap.Index.{find_hole_lem}
use grapes.Prelude.Pointers.{has}
use grapes.Kernel.Heap.Fields.{heap_create-bounds}
use grapes.Kernel.Heap.Expand.{heap_create-Formed}
use grapes.Kernel.Heap.Take.{Allocated}
use grapes.Kernel.Heap.Alloc.{Rowed, heap_alloc-Allocated}

abbrev sizes : ℕ → ℕ
sizes a = if a == 0x1000 then 64 else if a == 0x2000 then 128 else if a == 0x3000 then 128 else 96

abbrev heap : Heap
heap = record {
  start_addr = 0xE0300000;
  end_addr = 0xE0310000;
  max_end = 0xE8300000;
  idx = 0xE02FF000;
  index = 0x1000 ∷ 0x2000 ∷ 0x3000 ∷ [];
  overrun = false;
  size = sizes;
  magic = λ a. 0xBAD0BEEF;
  is_hole = λ a. true;
  header = λ a. 0x3000;
  footer_magic = λ a. 0xBAD0BEEF;
}

find_hole_lem_example :
    let need : ℕ = 100 in
    let index : List ℕ = 0x1000 ∷ 0x2000 ∷ 0x3000 ∷ [] in
    ((find_hole need sizes index ≡ none) × ((y : ℕ) → has y index ≡ true → sizes y < need))
    ⊎ ((x : ℕ) × (find_hole need sizes index ≡ some x)
        × (has x index ≡ true)
        × (need ≤ sizes x)
        × ((y : ℕ) → has y index ≡ true → need ≤ sizes y → sizes x ≤ sizes y))
find_hole_lem_example =
    find_hole_lem 100 0 sizes (0x1000 ∷ 0x2000 ∷ 0x3000 ∷ [])
      (omega arith, (omega arith, (omega arith, tt)))

-- the heap that `heap_create` makes at 0xE0000000
abbrev created : Heap
created = heap_create 0xE0000000 0x10000 0x100000 0x8000000 heap

created-Rowed : Rowed 0xE0010000 0xE0110000 ((0x100000, true) ∷ []) created
created-Rowed =
    let (start, stop, top, idx) = heap_create-bounds 0xE0000000 0x10000 0x100000 0x8000000 heap in
    record {
      formed =
          heap_create-Formed 0xE0000000 0x10000 0x100000 0x8000000 0xE0010000 heap refl
            (omega arith) (omega arith) (omega arith);
      stop = stop;
      some_room = omega arith;
      limit = omega (arith, top);
    }

heap_alloc-Allocated_example :
    (p : ℕ) × (h' : Heap) × (hi' : ℕ) × (bs' : List (ℕ × Bool)) × (heap_alloc 0x8000 100 created
      ≡ some (p, h'))
    × Rowed 0xE0010000 hi' bs' h'
    × Spare 9 h'
    × Allocated 0xE0010000 100 p ((0x100000, true) ∷ []) bs'
heap_alloc-Allocated_example =
    heap_alloc-Allocated 0x8000 100 9 0xE0010000 0xE0110000 ((0x100000, true) ∷ []) created
      created-Rowed
      (inl (
        heap_create-Spare 10 0xE0000000 0x10000 0x100000 0x8000000 heap (omega arith)
          (omega arith)))
      (omega (arith, heap_create-bounds 0xE0000000 0x10000 0x100000 0x8000000 heap))
      (omega (arith, heap_create-bounds 0xE0000000 0x10000 0x100000 0x8000000 heap))

-- `heap_contract` of a last hole of 0x3005 bytes leaves 5 of them, less than a header.
excess_leaves_5 : 0x3005 - excess 16 0x10000 0x3005 0 ≡ 5
unfolding excess
excess_leaves_5 = refl
