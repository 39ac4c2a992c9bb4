-- ===== src/Kernel/Heap/Fields.antt =====
-- The bounds of the heap, which the operations on blocks and on the index leave as they are.
use grapes.Prelude.{
  ℕ, ◌≡◌, ◌<◌, ◌≤◌, refl, false, ◌&&◌, ltb, arith, Bool-cases, inl, inr, zero, suc,
}
use grapes.Word.{u32, add32, sub32, page_up}
use grapes.Kernel.Heap.{
  Heap, idx_insert, idx_remove, take_hole, unify_left, unify_right, heap_create, heap_expand,
  excess, heap_min_size,
}

-- Where a heap starts, ends and may end, and where its index is.
pub record SameBounds (h h' : Heap) : Type 0 where
  pub start_addr : h'.start_addr ≡ h.start_addr
  pub end_addr : h'.end_addr ≡ h.end_addr
  pub max_end : h'.max_end ≡ h.max_end
  pub idx : h'.idx ≡ h.idx

pub idx_insert-SameBounds : (e : ℕ) (h : Heap) → SameBounds h (idx_insert e h)
unfolding idx_insert
idx_insert-SameBounds e h = record {
  start_addr = ground arith;
  end_addr = ground arith;
  max_end = ground arith;
  idx = ground arith;
}

pub idx_remove-SameBounds : (e : ℕ) (h : Heap) → SameBounds h (idx_remove e h)
unfolding idx_remove
idx_remove-SameBounds e h = record {
  start_addr = refl;
  end_addr = refl;
  max_end = refl;
  idx = refl;
}

pub take_hole-SameBounds : (loc n : ℕ) (h : Heap) → SameBounds h (take_hole loc n h).1
unfolding take_hole
take_hole-SameBounds loc n h = record {
  start_addr = ground arith;
  end_addr = ground arith;
  max_end = ground arith;
  idx = ground arith;
}

pub unify_left-SameBounds : (a b : ℕ) (h : Heap) → SameBounds h (unify_left a b h).1
unfolding unify_left
unify_left-SameBounds a b h = record {
  start_addr = ground arith;
  end_addr = ground arith;
  max_end = ground arith;
  idx = ground arith;
}

pub unify_right-SameBounds : (a b : ℕ) (h : Heap) → SameBounds h (unify_right a b h).1
unfolding unify_right
unify_right-SameBounds a b h = record {
  start_addr = ground arith;
  end_addr = ground arith;
  max_end = ground arith;
  idx = ground arith;
}

-- What `heap_contract` takes away leaves at least the smallest heap.
pub excess_lem : (fuel size hole q : ℕ) → size < u32 → q ≤ size → excess fuel size hole q ≤ size
unfolding excess
excess_lem zero size hole q fit le = le
excess_lem (suc fuel) size hole q fit le =
    let test = ltb heap_min_size (sub32 size q) && ltb 0x1000 (sub32 hole q) in
    elim (Bool-cases test) [
      | inl more ↦ rw more (excess_lem fuel size hole (add32 q 0x1000) fit (ground (arith, more)))
      | inr over ↦ rw over le
    ]

-- `heap_create` and `heap_expand` set the bounds.
pub heap_create-bounds :
    (start idxsize datasize maxdatasize : ℕ) (h : Heap)
    → let h' = heap_create start idxsize datasize maxdatasize h in
      let begin = add32 (page_up start) idxsize in
      (h'.start_addr ≡ begin)
      × (h'.end_addr ≡ add32 begin datasize)
      × (h'.max_end ≡ add32 begin maxdatasize)
      × (h'.idx ≡ page_up start)
unfolding heap_create
heap_create-bounds start idxsize datasize maxdatasize h =
    (ground arith, ground arith, ground arith, ground arith)

pub heap_expand-bounds :
    (n : ℕ) (h : Heap)
    → ltb h.max_end (add32 h.end_addr (page_up n)) ≡ false
    → let h' = (heap_expand n h).1 in
      (h'.start_addr ≡ h.start_addr)
      × (h'.end_addr ≡ add32 h.end_addr (page_up n))
      × (h'.max_end ≡ h.max_end)
      × (h'.idx ≡ h.idx)
unfolding heap_expand
heap_expand-bounds n h room = elim (Bool-cases (h.is_hole (h.header (sub32 h.end_addr 8)))) [
  | inl hole ↦ rw (room, hole) (ground arith, refl, ground arith, ground arith)
  | inr used ↦ rw (room, used) (ground arith, refl, ground arith, ground arith)
]
