-- ===== src/Library/Heap/Sound.antt =====
-- `malloc` keeps the heap a row of blocks, and adds one block to those in use.
use grapes.Prelude.{
  ℕ, zero, suc, ◌+◌, ◌-◌, ◌*◌, ◌^◌, ◌≡◌, ◌<◌, ◌≤◌, inl, inr, refl, sym, ap, ◌∙◌, Bool, true, false,
  List, ltb, arith, Option-cases, some,
}
use mathlib.Core.Path.{subst}
use grapes.Prelude.Pointers.{null}
use grapes.Prelude.Runs.{done}
use grapes.Word.{u32, add32, page_up, page_floor}
use grapes.Kernel.Heap as KernelHeap
use grapes.Kernel.Heap.{
  Heap, heap_magic, heap_min_size, find_hole, take_hole, footer_size, header_size,
}
use grapes.Kernel.Heap.Fields.{take_hole-SameBounds, heap_expand-bounds}
use grapes.Kernel.Heap.Room.{Spare, Growing, Growing-Spare, take_hole-Spare, heap_expand-Spare}
use grapes.Kernel.Heap.Index.{find_hole-has}
use grapes.Kernel.Heap.Blocks.{starts, starts-inside}
use grapes.Kernel.Heap.Opened.{Formed}
use grapes.Kernel.Heap.Take.{take_hole-Taken, take_hole-ptr, Allocated, Allocated-same}
use grapes.Kernel.Heap.Expand.{Grown, heap_expand-Grown}
use grapes.Library.Heap.{Application, with_heap, heap_alloc}
use grapes.Library.Heap.Interface.{SetHeap}
use grapes.Library.Heap.Backed.{Backed, kept, heap_expand-Backed}

-- The heap of an application as a row of blocks from `lo` to `hi`, which memory backs.
pub record Sound {K : Type 0} (calls : SetHeap K) (lo hi : ℕ) (bs : List (ℕ × Bool))
    (s : Application K) : Type 0 where
  pub backed : Backed calls s
  pub start : s.heap.start_addr ≡ lo
  pub stop : s.heap.end_addr ≡ hi
  pub formed : Formed s.heap lo hi bs
  pub some_room : lo < hi

module _ {K : Type 0} (calls : SetHeap K) where
  take_hole-Sound :
      (loc sz lo hi : ℕ) (bs : List (ℕ × Bool)) (s : Application K)
      → sz < 2 ^ 31 - 0x1000
      → Sound calls lo hi bs s
      → find_hole (add32 sz 20) s.heap.size s.heap.index ≡ some loc
      → let r = take_hole loc (add32 sz 20) s.heap in
        (bs' : List (ℕ × Bool)) × Sound calls lo hi bs' (with_heap r.1 s)
        × Allocated lo sz r.0 bs bs'
  take_hole-Sound loc sz lo hi bs s small g found =
      let (inside, le) = find_hole-has (add32 sz 20) loc s.heap.size s.heap.index found in
      let taken =
        take_hole-Taken loc (add32 sz 20) lo hi s.heap bs g.formed inside (omega arith) le in
      let bounds = take_hole-SameBounds loc (add32 sz 20) s.heap in
      let within =
        starts-inside s.heap true lo hi bs loc (s.heap.size loc) g.formed.laid
          (g.formed.holes loc inside) in
      (
        taken.blocks,
        record {
          backed = kept calls (take_hole loc (add32 sz 20) s.heap).1 s bounds g.backed;
          start = bounds.start_addr ∙ g.start;
          stop = bounds.end_addr ∙ g.stop;
          formed = taken.formed;
          some_room = g.some_room;
        },
        inr (
          loc,
          taken.size,
          take_hole-ptr loc (add32 sz 20) s.heap ∙ omega (arith, within, g.formed.high),
          omega (arith, taken.enough),
          taken.fresh,
          taken.used,
        ),
      )

  -- `heap_expand` that does.
  grown-Sound :
      (n lo hi : ℕ) (bs : List (ℕ × Bool)) (s t : Application K)
      → 0x1000 ≤ n
      → n < 2 ^ 31
      → Sound calls lo hi bs s
      → Backed calls t
      → t.heap ≡ (KernelHeap.heap_expand n s.heap).1
      → ltb s.heap.max_end (add32 s.heap.end_addr (page_up n)) ≡ false
      → (bs' : List (ℕ × Bool)) × Sound calls lo (hi + page_up n) bs' t
        × ((x k : ℕ) → starts false lo bs' x k ≡ starts false lo bs x k)
  grown-Sound n lo hi bs s t page small g b same room =
      let (start, stop, _, _) = heap_expand-bounds n s.heap room in
      let fit : hi + page_up n < u32 = ground (arith, g.stop, g.backed.limit, g.backed.low) in
      let room' : ltb s.heap.max_end (add32 hi (page_up n)) ≡ false =
        subst (λ e. ltb s.heap.max_end (add32 e (page_up n)) ≡ false) g.stop room in
      let grown : Grown lo (hi + page_up n) bs (KernelHeap.heap_expand n s.heap).1 =
        heap_expand-Grown s.heap lo hi n bs g.formed g.stop room' fit (ground arith) g.some_room in
      (
        grown.blocks,
        record {
          backed = b;
          start = ap (λ h. h.start_addr) same ∙ start ∙ g.start;
          stop = ap (λ h. h.end_addr) same ∙ stop ∙ omega (arith, g.stop, fit);
          formed = subst (λ h. Formed h lo (hi + page_up n) grown.blocks) (sym same) grown.formed;
          some_room = omega (arith, g.some_room);
        },
        grown.used,
      )

  -- `heap_alloc` of a size that leaves room for the rounding, with a call of itself for each page
  -- that the heap can still grow by.
  pub heap_alloc-Sound :
      (fuel sz n lo hi : ℕ) (bs : List (ℕ × Bool)) (s : Application K)
      → sz < 2 ^ 31 - 0x1000
      → Sound calls lo hi bs s
      → Growing n s.heap
      → s.heap.max_end < s.heap.end_addr + fuel * 0x1000
      → (p : ℕ) × (t : Application K) × (hi' : ℕ) × (bs' : List (ℕ × Bool)) × (heap_alloc
            calls.proc_setheap fuel sz s
          ≡ done p t)
        × Sound calls lo hi' bs' t
        × Spare n t.heap
        × (t.heap_ok ≡ s.heap_ok)
        × Allocated lo sz p bs bs'
  unfolding heap_alloc
  heap_alloc-Sound zero sz n lo hi bs s small g growing enough =
      absurd (omega (arith, g.backed.limit))
  heap_alloc-Sound (suc fuel) sz n lo hi bs s small g growing enough =
      elim (Option-cases (find_hole (add32 sz 20) s.heap.size s.heap.index)) [
        | inr (loc, found) ↦
            let (bs', g', a) = take_hole-Sound loc sz lo hi bs s small g found in
            (
              (take_hole loc (add32 sz 20) s.heap).0,
              with_heap (take_hole loc (add32 sz 20) s.heap).1 s,
              hi,
              bs',
              rw found refl,
              g',
              take_hole-Spare n loc (add32 sz 20) s.heap
                  (find_hole-has (add32 sz 20) loc s.heap.size s.heap.index found).0
                  (Growing-Spare n s.heap growing),
              refl,
              a,
            )
        | inl none_fits ↦
            let q = add32 (page_floor sz) 0x1000 in
            let (larger, t, run, b, flag, grown) =
              heap_expand-Backed calls q s (omega arith) (omega arith) g.backed in
            elim grown [
              | inl (refused, same) ↦ (
                null,
                t,
                hi,
                bs,
                rw (none_fits, run, refused) refl,
                record {
                  backed = b;
                  start = ap (λ h. h.start_addr) same ∙ g.start;
                  stop = ap (λ h. h.end_addr) same ∙ g.stop;
                  formed = subst (λ h. Formed h lo hi bs) (sym same) g.formed;
                  some_room = g.some_room;
                },
                subst (Spare n) (sym same) (Growing-Spare n s.heap growing),
                flag,
                inl (refl, λ x k. refl),
              )
              | inr (grew, more, top, same, room) ↦
                  let (cs, g', u) =
                    grown-Sound q lo hi bs s t (omega arith) (omega arith) g b same room in
                  let spare = heap_expand-Spare n q s.heap room growing in
                  let (p, t', hi', bs', run', g'', spare', flag', a) =
                    heap_alloc-Sound fuel sz n lo (hi + page_up q) cs t small g'
                      (subst (Growing n) (sym same) (inr spare))
                      (omega (arith, more, top, enough)) in
                  (
                    p,
                    t',
                    hi',
                    bs',
                    rw (none_fits, run, grew) run',
                    g'',
                    spare',
                    flag' ∙ flag,
                    Allocated-same lo sz p bs cs bs' u a,
                  )
            ]
      ]
