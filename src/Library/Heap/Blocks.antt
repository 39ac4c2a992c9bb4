-- ===== src/Library/Heap/Blocks.antt =====
-- The bounds of the heap after a block is cut off or freed.
use grapes.Prelude.{ℕ, ◌≡◌, refl, ◌∙◌, true}
use grapes.Prelude.Pointers.{update}
use grapes.Word.{add32, sub32}
use grapes.Kernel.Heap.{
  Heap, footer_size, header_size, write_footer, idx_remove, unify_left, unify_right,
}
use grapes.Kernel.Heap.Fields.{
  SameBounds, idx_insert-SameBounds, idx_remove-SameBounds, unify_left-SameBounds,
  unify_right-SameBounds,
}
use grapes.Library.Heap.{cut, join}

trans-SameBounds : {f g h : Heap} → SameBounds f g → SameBounds g h → SameBounds f h
trans-SameBounds a b = record {
  start_addr = b.start_addr ∙ a.start_addr;
  end_addr = b.end_addr ∙ a.end_addr;
  max_end = b.max_end ∙ a.max_end;
  idx = b.idx ∙ a.idx;
}

pub cut-bounds :
    (q : ℕ) (h : Heap)
    → let h' = cut q h in
      (h'.start_addr ≡ h.start_addr)
      × (h'.end_addr ≡ sub32 h.end_addr q)
      × (h'.max_end ≡ h.max_end)
      × (h'.idx ≡ h.idx)
unfolding cut
cut-bounds q h =
    let last = h.header (sub32 h.end_addr footer_size) in
    let footer = sub32 (sub32 h.end_addr footer_size) q in
    let removed : Heap = record (idx_remove last h) {
      size = update h.size last (sub32 (h.size last) q);
    } in
    let same = idx_remove-SameBounds last h in
    let same' = idx_insert-SameBounds last (write_footer footer last removed) in
    (same'.start_addr ∙ same.start_addr, refl, same'.max_end ∙ same.max_end, same'.idx ∙ same.idx)

pub join-SameBounds : (ptr : ℕ) (h : Heap) → SameBounds h (join ptr h).2
unfolding join
join-SameBounds ptr h =
    let start = sub32 ptr header_size in
    let foot = sub32 (add32 start (h.size start)) footer_size in
    let (header, left) = unify_left start foot h in
    let (footer, right) = unify_right header foot left in
    let same =
      trans-SameBounds (unify_left-SameBounds start foot h)
        (unify_right-SameBounds header foot left) in
    let same' =
      idx_insert-SameBounds header (record right { is_hole = update right.is_hole header true }) in
    record {
      start_addr = same'.start_addr ∙ same.start_addr;
      end_addr = same'.end_addr ∙ same.end_addr;
      max_end = same'.max_end ∙ same.max_end;
      idx = same'.idx ∙ same.idx;
    }
