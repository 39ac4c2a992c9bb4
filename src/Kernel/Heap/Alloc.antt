-- ===== src/Kernel/Heap/Alloc.antt =====
-- `heap_alloc` of the kernel keeps the heap a row of blocks, and adds one to those in use.
use grapes.Prelude.{
  ℕ, zero, suc, ◌+◌, ◌*◌, ◌≡◌, ◌<◌, ◌≤◌, inl, inr, refl, ◌∙◌, Bool, true, false, List, ltb, arith,
  Bool-cases, Option-cases, some,
}
use mathlib.Core.Path.{subst}
use grapes.Word.{u32, add32, page_up, page_floor}
use grapes.Kernel.Heap.{Heap, heap_alloc, heap_expand, take_hole, find_hole}
use grapes.Kernel.Heap.Fields.{take_hole-SameBounds, heap_expand-bounds}
use grapes.Kernel.Heap.Room.{Spare, Growing, Growing-Spare, take_hole-Spare, heap_expand-Spare}
use grapes.Kernel.Heap.Index.{find_hole-has}
use grapes.Kernel.Heap.Blocks.{starts-inside}
use grapes.Kernel.Heap.Opened.{Formed}
use grapes.Kernel.Heap.Take.{take_hole-Taken, take_hole-ptr, Allocated, Allocated-same}
use grapes.Kernel.Heap.Expand.{Grown, heap_expand-Grown, heap_expand-refused, heap_expand-grew}

-- The heap is a row of blocks from `lo` to its end, at `hi`.
pub record Rowed (lo hi : ℕ) (bs : List (ℕ × Bool)) (h : Heap) : Type 0 where
  pub formed : Formed h lo hi bs
  pub stop : h.end_addr ≡ hi
  pub some_room : lo < hi
  pub limit : hi ≤ h.max_end

-- `heap_alloc` of a size for which the rounding does not overflow at the end of the heap, with a
-- call of itself for each page that the heap can still grow by, when the index has room for `n` entries
-- and one more, or for `n` if the last block is a hole of the index, always returns, never writes an
-- entry behind the end of the index, and leaves room for `n` there. It returns 0 and a heap with
-- the same blocks in use, or the address behind the header of one block more, which was not in use
-- and has room for the size between its header and its footer. The blocks still lie one behind the
-- other.
pub heap_alloc-Allocated :
    (fuel sz n lo hi : ℕ) (bs : List (ℕ × Bool)) (h : Heap)
    → Rowed lo hi bs h
    → Growing n h
    → h.max_end + sz + 0x2000 < u32
    → h.max_end < hi + fuel * 0x1000
    → (p : ℕ) × (h' : Heap) × (hi' : ℕ) × (bs' : List (ℕ × Bool)) × (heap_alloc fuel sz h
        ≡ some (p, h'))
      × Rowed lo hi' bs' h'
      × Spare n h'
      × Allocated lo sz p bs bs'
unfolding heap_alloc
heap_alloc-Allocated zero sz n lo hi bs h g growing fit enough = absurd (omega (arith, g.limit))
heap_alloc-Allocated (suc fuel) sz n lo hi bs h g growing fit enough =
    elim (Option-cases (find_hole (add32 sz 20) h.size h.index)) [
      | inr (loc, found) ↦
          let (inside, le) = find_hole-has (add32 sz 20) loc h.size h.index found in
          let within =
            starts-inside h true lo hi bs loc (h.size loc) g.formed.laid
              (g.formed.holes loc inside) in
          let taken =
            take_hole-Taken loc (add32 sz 20) lo hi h bs g.formed inside (omega arith) le in
          let bounds = take_hole-SameBounds loc (add32 sz 20) h in
          (
            (take_hole loc (add32 sz 20) h).0,
            (take_hole loc (add32 sz 20) h).1,
            hi,
            taken.blocks,
            rw found refl,
            record {
              formed = taken.formed;
              stop = bounds.end_addr ∙ g.stop;
              some_room = g.some_room;
              limit = omega (arith, bounds.max_end, g.limit);
            },
            take_hole-Spare n loc (add32 sz 20) h inside (Growing-Spare n h growing),
            inr (
              loc,
              taken.size,
              take_hole-ptr loc (add32 sz 20) h ∙ omega (arith, within, g.formed.high),
              omega (arith, taken.enough),
              taken.fresh,
              taken.used,
            ),
          )
      | inl none_fits ↦
          let q = add32 (page_floor sz) 0x1000 in
          elim (Bool-cases (ltb h.max_end (add32 h.end_addr (page_up q)))) [
            | inl over ↦ (
              0,
              h,
              hi,
              bs,
              rw (none_fits, heap_expand-refused q h over) refl,
              g,
              Growing-Spare n h growing,
              inl (refl, λ x k. refl),
            )
            | inr room ↦
                let (_, stop, top, _) = heap_expand-bounds q h room in
                let fits : hi + page_up q < u32 = ground (arith, g.limit) in
                let grown : Grown lo (hi + page_up q) bs (heap_expand q h).1 =
                  heap_expand-Grown h lo hi q bs g.formed g.stop
                    (subst (λ e. ltb h.max_end (add32 e (page_up q)) ≡ false) g.stop room) fits
                    (ground arith) g.some_room in
                let g' : Rowed lo (hi + page_up q) grown.blocks (heap_expand q h).1 = record {
                  formed = grown.formed;
                  stop = stop ∙ omega (arith, g.stop, fits);
                  some_room = omega (arith, g.some_room);
                  limit = ground (arith, top, room, g.stop, fits);
                } in
                let (p, h', hi', bs', run, g'', spare, a) =
                  heap_alloc-Allocated fuel sz n lo (hi + page_up q) grown.blocks
                    (heap_expand q h).1 g' (inr (heap_expand-Spare n q h room growing))
                    (omega (arith, top)) (ground (arith, top, enough)) in
                (
                  p,
                  h',
                  hi',
                  bs',
                  rw (none_fits, heap_expand-grew q h room) run,
                  g'',
                  spare,
                  Allocated-same lo sz p bs grown.blocks bs' grown.used a,
                )
          ]
    ]
