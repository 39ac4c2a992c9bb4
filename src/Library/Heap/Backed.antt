-- ===== src/Library/Heap/Backed.antt =====
-- Memory backs the heap of an application after every operation.
use grapes.Prelude.{
  ℕ, ◌+◌, ◌-◌, ◌/◌, ◌^◌, ◌≡◌, ◌<◌, ◌≤◌, ◌⊎◌, inl, inr, refl, Bool, true, false, not, ltb, ◌==◌,
  arith, Bool-cases,
}
use grapes.Prelude.Runs.{done}
use grapes.Word.{add32, sub32, page_up}
use grapes.Kernel.Heap as KernelHeap
use grapes.Kernel.Heap.{
  Heap, heap_magic, heap_min_size, find_hole, take_hole, excess, footer_size, header_size,
  unify_left, unify_right, idx_insert, idx_remove,
}
use grapes.Kernel.Heap.Fields.{SameBounds, excess_lem, heap_expand-bounds}
use grapes.Library.Heap.{Application, with_heap, cut, setheapseg, heap_expand, heap_contract}
use grapes.Library.Heap.Blocks.{cut-bounds}
use grapes.Library.Heap.Interface.{SetHeap}

-- The quantity that `heap_contract` asks for.
abbrev pub surplus : Heap → ℕ
surplus h =
    let last = h.header (sub32 h.end_addr footer_size) in
    excess (h.size last / 0x1000 + 1) (sub32 h.end_addr h.start_addr) (h.size last) 0

-- The heap is as before, or its last hole is smaller by that quantity.
abbrev pub Contracted : (h h' : Heap) → Type 0
Contracted h h' =
    (h' ≡ h)
    ⊎ ((h.is_hole (h.header (sub32 h.end_addr footer_size)) ≡ true)
        × ((surplus h == 0) ≡ false)
        × (sub32 h.end_addr (surplus h) ≡ h.end_addr - surplus h)
        × (h.start_addr ≤ h.end_addr - surplus h)
        × (h' ≡ cut (surplus h) h))

module _ {K : Type 0} (calls : SetHeap K) where
  -- Memory backs the index and the blocks of the heap, which ends below 2^31.
  pub record Backed (s : Application K) : Type 0 where
    pub backs : calls.Backs s.heap.idx s.heap.end_addr s.kernel
    pub index : s.heap.idx ≤ s.heap.start_addr
    pub blocks : s.heap.start_addr ≤ s.heap.end_addr
    pub limit : s.heap.end_addr ≤ s.heap.max_end
    pub low : s.heap.max_end < 2 ^ 31

  -- `setheapseg` for the start of the heap
  pub setheapseg_lem :
      (start old stop : ℕ) (s : Application K)
      → calls.Backs start old s.kernel
      → start ≤ stop
      → (failure : Bool) × (k : K) × (setheapseg calls.proc_setheap start stop s
          ≡ done failure (record s { kernel = k }))
        × (((failure ≡ false) × calls.Backs start stop k) ⊎ ((failure ≡ true) × (k ≡ s.kernel)))
  unfolding setheapseg
  setheapseg_lem start old stop s b le =
      let (r, k, run, result) = calls.law start old stop s.kernel b le in
      (
        not (r == 0),
        k,
        rw run refl,
        elim result [
          | inl (ok, b') ↦ inl (ground (arith, ok), b')
          | inr (bad, same) ↦ inr (ground (arith, bad), same)
        ],
      )

  -- An operation on the blocks leaves the heap backed.
  pub kept :
      (h : Heap) (s : Application K) → SameBounds s.heap h → Backed s → Backed (with_heap h s)
  kept h s same b = record {
    backs = rw (same.idx, same.end_addr) b.backs;
    index = omega (arith, same.idx, same.start_addr, b.index);
    blocks = omega (arith, same.start_addr, same.end_addr, b.blocks);
    limit = omega (arith, same.end_addr, same.max_end, b.limit);
    low = omega (arith, same.max_end, b.low);
  }

  pub heap_expand-Backed :
      (n : ℕ) (s : Application K)
      → 0x1000 ≤ n
      → n < 2 ^ 31
      → Backed s
      → (r : Bool) × (t : Application K) × (heap_expand calls.proc_setheap n s ≡ done r t)
        × Backed t
        × (t.heap_ok ≡ s.heap_ok)
        × (((r ≡ false) × (t.heap ≡ s.heap))
            ⊎ ((r ≡ true)
                × (s.heap.end_addr + 0x1000 ≤ t.heap.end_addr)
                × (t.heap.max_end ≡ s.heap.max_end)
                × (t.heap ≡ (KernelHeap.heap_expand n s.heap).1)
                × (ltb s.heap.max_end (add32 s.heap.end_addr (page_up n)) ≡ false)))
  unfolding heap_expand
  heap_expand-Backed n s page small b =
      let new_end = add32 s.heap.end_addr (page_up n) in
      elim (Bool-cases (ltb s.heap.max_end new_end)) [
        | inl over ↦ (false, s, rw over refl, b, refl, inl (refl, refl))
        | inr room ↦
            let larger : s.heap.end_addr + 0x1000 ≤ new_end = ground (arith, b.limit, b.low) in
            let (failure, k, run, result) =
              setheapseg_lem s.heap.idx s.heap.end_addr new_end s b.backs
                (omega (arith, b.index, b.blocks, larger)) in
            elim result [
              | inr (bad, same) ↦ (
                false,
                record s { kernel = k },
                rw (room, run, bad) refl,
                rw same b,
                refl,
                inl (refl, refl),
              )
              | inl (ok, backs) ↦
                  let (start_addr, end_addr, max_end, idx) = heap_expand-bounds n s.heap room in
                  (
                    true,
                    with_heap (KernelHeap.heap_expand n s.heap).1 (record s { kernel = k }),
                    rw (room, run, ok) refl,
                    record {
                      backs = rw (idx, end_addr) backs;
                      index = omega (arith, idx, start_addr, b.index);
                      blocks = omega (arith, start_addr, end_addr, b.blocks, larger);
                      limit = ground (arith, max_end, end_addr, room);
                      low = omega (arith, max_end, b.low);
                    },
                    refl,
                    inr (refl, omega (arith, end_addr, larger), max_end, refl, room),
                  )
            ]
      ]

  pub heap_contract-Backed :
      (s : Application K)
      → Backed s
      → (t : Application K) × (heap_contract calls.proc_setheap s ≡ done tt t)
        × Backed t
        × (t.heap_ok ≡ s.heap_ok)
        × Contracted s.heap t.heap
  unfolding heap_contract
  heap_contract-Backed s b =
      let h = s.heap in
      let last = h.header (sub32 h.end_addr footer_size) in
      let q = excess (h.size last / 0x1000 + 1) (sub32 h.end_addr h.start_addr) (h.size last) 0 in
      elim (Bool-cases (h.is_hole last)) [
        | inr used ↦ (s, rw used refl, b, refl, inl refl)
        | inl hole ↦ elim (Bool-cases (q == 0)) [
          | inl nothing ↦ (s, rw (hole, nothing) refl, b, refl, inl refl)
          | inr some_pages ↦
              let fits : q ≤ sub32 h.end_addr h.start_addr =
                excess_lem (h.size last / 0x1000 + 1) (sub32 h.end_addr h.start_addr) (h.size last)
                  0 (omega arith) (omega arith) in
              let smaller : sub32 h.end_addr q ≡ h.end_addr - q =
                omega (arith, fits, b.blocks, b.limit, b.low) in
              let above : h.start_addr ≤ h.end_addr - q =
                omega (arith, fits, b.blocks, b.limit, b.low) in
              let (failure, k, run, result) =
                setheapseg_lem h.idx h.end_addr (sub32 h.end_addr q) s b.backs
                  (omega (arith, smaller, above, b.index)) in
              elim result [
                | inr (bad, same) ↦ (
                  record s { kernel = k },
                  rw (hole, some_pages, run, bad) refl,
                  rw same b,
                  refl,
                  inl refl,
                )
                | inl (ok, backs) ↦
                    let (start_addr, end_addr, max_end, idx) = cut-bounds q h in
                    (
                      with_heap (cut q h) (record s { kernel = k }),
                      rw (hole, some_pages, run, ok) refl,
                      record {
                        backs = rw (idx, end_addr) backs;
                        index = omega (arith, idx, start_addr, b.index);
                        blocks = omega (arith, start_addr, end_addr, smaller, above);
                        limit = omega (arith, max_end, end_addr, smaller, b.limit);
                        low = omega (arith, max_end, b.low);
                      },
                      refl,
                      inr (hole, some_pages, smaller, above, refl),
                    )
              ]
        ]
      ]
