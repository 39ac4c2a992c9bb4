-- ===== src/Kernel/Memory/Start.antt =====
-- The kernel's heap lies above what was allocated before it, and serves what comes after.
use grapes.Prelude.{
  ℕ, ◌+◌, ◌*◌, ◌/◌, ◌≡◌, ◌<◌, ◌≤◌, refl, ◌∙◌, Bool, true, some, List, [], ◌∷◌, arith, inl, false,
}
use grapes.Word.{u32, add32, page_floor, page_up}
use grapes.Kernel.Heap.{heap_create}
use grapes.Kernel.Heap.Fields.{heap_create-bounds}
use grapes.Kernel.Heap.Expand.{heap_create-Formed}
use grapes.Kernel.Heap.Room.{heap_create-Spare}
use grapes.Kernel.Heap.Take.{Allocated}
use grapes.Kernel.Heap.Alloc.{Rowed, heap_alloc-Allocated}
use grapes.Kernel.Memory.{Memory, kheap_init, kmalloc}

-- where the blocks of the heap start
abbrev pub heap_base : ℕ → ℕ
heap_base placement = placement / 0x1000 * 0x1000 + 0x2000

-- `kheap_init`, with room for the whole heap below 2^32, and then `kmalloc` of a size that leaves
-- room for the rounding, with a call of `heap_alloc` for each page that the heap can grow by: the
-- blocks of the heap lie above the place of the next early allocation; the call returns null, or
-- one block with room for the size, which is then the only one in use, and the blocks lie one behind
-- the other, with the index in front of them.
pub kmalloc-Allocated :
    (fuel size : ℕ) (s : Memory)
    → heap_base s.placement + 0x08000000 + size + 0x2000 < u32
    → 0x8000 ≤ fuel
    → (s.placement < heap_base s.placement)
      × ((p : ℕ) × (t : Memory) × (hi : ℕ) × (bs : List (ℕ × Bool)) × (kmalloc fuel size
              (kheap_init s)
            ≡ some (p, t))
          × Rowed (heap_base s.placement) hi bs t.heap
          × (t.heap.overrun ≡ false)
          × Allocated (heap_base s.placement) size p ((0x8000, true) ∷ []) bs)
unfolding kmalloc kheap_init
kmalloc-Allocated fuel size s fit enough =
    let lo = heap_base s.placement in
    let start = add32 (page_floor s.placement) 0x1000 in
    let first : add32 (page_up start) 0x1000 ≡ lo = ground arith in
    let h = heap_create start 0x1000 0x8000 0x08000000 s.heap in
    let (_, stop, top, _) = heap_create-bounds start 0x1000 0x8000 0x08000000 s.heap in
    let end : h.end_addr ≡ lo + 0x8000 = stop ∙ omega (arith, first) in
    let limit : h.max_end ≡ lo + 0x08000000 = top ∙ omega (arith, first) in
    let rowed : Rowed lo (lo + 0x8000) ((0x8000, true) ∷ []) h = record {
      formed =
          heap_create-Formed start 0x1000 0x8000 0x08000000 lo s.heap first (omega arith)
            (omega arith) (omega arith);
      stop = end;
      some_room = omega arith;
      limit = omega (arith, limit);
    } in
    let spare =
      heap_create-Spare 1 start 0x1000 0x8000 0x08000000 s.heap (omega arith) (ground arith) in
    let (p, h', hi, bs, run, g, left, a) =
      heap_alloc-Allocated fuel size 0 lo (lo + 0x8000) ((0x8000, true) ∷ []) h rowed (inl spare)
        (omega (arith, limit)) (omega (arith, limit)) in
    (
      omega arith,
      (p, record s { heap = h'; working = true }, hi, bs, rw run refl, g, left.intact, a),
    )
