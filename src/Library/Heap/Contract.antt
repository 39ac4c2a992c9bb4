-- ===== src/Library/Heap/Contract.antt =====
-- `heap_contract` leaves a row of blocks, when its last hole keeps room for a header and a footer.
use grapes.Prelude.{
  ℕ, ◌+◌, ◌-◌, ◌≡◌, ◌<◌, ◌≤◌, ◌⊎◌, inl, inr, refl, sym, ap, ◌∙◌, Bool, true, false, List, [], ◌∷◌,
  ◌++◌, arith, suc,
}
use mathlib.Core.Path.{subst}
use grapes.Prelude.Runs.{done}
use grapes.Word.{sub32}
use grapes.Kernel.Heap.{Heap, idx_insert, idx_remove, write_footer, footer_size}
use grapes.Kernel.Heap.Blocks.{starts, Laid-le, Last, Laid-Last, starts-append}
use grapes.Kernel.Heap.Opened.{Formed}
use grapes.Kernel.Heap.Expand.{Grown, resized, resized-Formed, Formed-end_addr}
use grapes.Library.Heap.{Application, cut, heap_contract}
use grapes.Prelude.Pointers.{update}
use grapes.Kernel.Heap.Room.{Spare, Spare-same, Spare-less, idx_insert-Spare, idx_remove-Spare}
use grapes.Library.Heap.Blocks.{cut-bounds}
use grapes.Library.Heap.Interface.{SetHeap}
use grapes.Library.Heap.Backed.{heap_contract-Backed, surplus}
use grapes.Library.Heap.Sound.{Sound}

-- The last block is in use, or stays, or keeps at least 20 bytes.
abbrev pub Keeps : Heap → Type 0
Keeps h =
    let last = h.header (sub32 h.end_addr 8) in
    (h.is_hole last ≡ false) ⊎ ((surplus h ≡ 0) ⊎ (surplus h + 20 ≤ h.size last))

module _ (h : Heap) (lo hi q : ℕ) (bs : List (ℕ × Bool)) (f : Formed h lo hi bs)
    (stop : h.end_addr ≡ hi) (hole : h.is_hole (h.header (sub32 hi 8)) ≡ true)
    (keep : q + 20 ≤ h.size (h.header (sub32 hi 8))) (some : lo < hi) where
  cut-resized :
      (l : Last h lo hi bs)
      → cut q h
        ≡ record (idx_insert l.at (resized l.at (l.size - q) h)) { end_addr = l.at + (l.size - q) }
  unfolding cut
  cut-resized l =
      let foot : sub32 hi 8 ≡ l.at + l.size - 8 = ground (arith, l.stop, f.high, l.block.least) in
      let last_size : h.size (h.header (sub32 hi 8)) ≡ l.size =
        ap (λ a. h.size (h.header a)) foot ∙ ap h.size l.block.header ∙ l.block.size in
      let left : q + 20 ≤ l.size = omega (arith, keep, last_size) in
      let size : sub32 (h.size l.at) q ≡ l.size - q =
        ground (arith, l.stop, l.block.size, f.high, left) in
      let foot' : sub32 (l.at + l.size - 8) q ≡ l.at + (l.size - q) - 8 =
        ground (arith, l.stop, f.high, left) in
      let end : sub32 hi q ≡ l.at + (l.size - q) = ground (arith, l.stop, f.high, left) in
      rw (stop, foot, l.block.header, size, foot', end) refl

  cut_some : lo < hi - q
  cut_some = elim (Laid-Last h lo hi bs f.laid) [
    | inl (_, empty) ↦ absurd (omega arith)
    | inr l ↦
        let foot : sub32 hi 8 ≡ l.at + l.size - 8 = ground (arith, l.stop, f.high, l.block.least) in
        let at : h.header (sub32 hi 8) ≡ l.at = ap h.header foot ∙ l.block.header in
        omega (arith, keep, ap h.size at, l.block.size, l.stop, Laid-le h lo l.at l.init l.left)
  ]

  cut-Grown : Grown lo (hi - q) bs (cut q h)
  cut-Grown = elim (Laid-Last h lo hi bs f.laid) [
    | inl (_, empty) ↦ absurd (omega arith)
    | inr l ↦
        let foot : sub32 hi 8 ≡ l.at + l.size - 8 = ground (arith, l.stop, f.high, l.block.least) in
        let at : h.header (sub32 hi 8) ≡ l.at = ap h.header foot ∙ l.block.header in
        let left : q + 20 ≤ l.size = omega (arith, keep, ap h.size at, l.block.size) in
        let parts =
          l.parts
          ∙ ap (λ c. l.init ++ (l.size, c) ∷ []) (sym l.is_hole ∙ sym (ap h.is_hole at) ∙ hole) in
        let reach : l.at + (l.size - q) ≡ hi - q = omega (arith, l.stop, left) in
        rw (cut-resized l) (record {
          blocks = l.init ++ (l.size - q, true) ∷ [];
          formed =
              Formed-end_addr (idx_insert l.at (resized l.at (l.size - q) h)) lo (hi - q)
                (l.at + (l.size - q)) (l.init ++ (l.size - q, true) ∷ [])
                (subst
                  (λ e.
                    Formed (idx_insert l.at (resized l.at (l.size - q) h)) lo e
                      (l.init ++ (l.size - q, true) ∷ []))
                  reach
                  (resized-Formed h lo hi l.at l.size (l.size - q) l.init
                    (subst (Formed h lo hi) parts f) l.left l.block (sym (ap h.is_hole at) ∙ hole)
                    l.stop (omega (arith, reach, f.high)) (omega (arith, left))));
          used = λ x k. ground (
            arith,
            starts-append h false lo l.at l.init ((l.size - q, true) ∷ []) x k l.left,
            starts-append h false lo l.at l.init ((l.size, true) ∷ []) x k l.left,
            ap (λ xs. starts false lo xs x k) parts,
          );
        })
  ]

cut-Spare : (n q : ℕ) (h : Heap) → Spare (suc n) h → Spare n (cut q h)
unfolding cut
cut-Spare n q h s =
    let last = h.header (sub32 h.end_addr footer_size) in
    let removed : Heap = record (idx_remove last h) {
      size = update h.size last (sub32 (h.size last) q);
    } in
    let foot = sub32 (sub32 h.end_addr footer_size) q in
    let written : Heap = write_footer foot last removed in
    Spare-same n (idx_insert last written) (cut q h) refl refl refl refl (
      idx_insert-Spare n last written (
        Spare-same (suc n) (idx_remove last h) written refl refl refl refl
          (idx_remove-Spare (suc n) last h s)))

-- `heap_contract` keeps the blocks in use.
pub heap_contract-Sound :
    {K : Type 0} (calls : SetHeap K) (n lo hi : ℕ) (bs : List (ℕ × Bool)) (s : Application K)
    → Sound calls lo hi bs s
    → Spare (suc n) s.heap
    → Keeps s.heap
    → (t : Application K) × (hi' : ℕ) × (bs' : List (ℕ × Bool)) × (heap_contract calls.proc_setheap
          s
        ≡ done tt t)
      × Sound calls lo hi' bs' t
      × Spare n t.heap
      × (t.heap_ok ≡ s.heap_ok)
      × ((x k : ℕ) → starts false lo bs' x k ≡ starts false lo bs x k)
heap_contract-Sound calls n lo hi bs s g spare keeps =
    let (t, run, b, flag, result) = heap_contract-Backed calls s g.backed in
    elim result [
      | inl same ↦ (
        t,
        hi,
        bs,
        run,
        record {
          backed = b;
          start = ap (λ h. h.start_addr) same ∙ g.start;
          stop = ap (λ h. h.end_addr) same ∙ g.stop;
          formed = subst (λ h. Formed h lo hi bs) (sym same) g.formed;
          some_room = g.some_room;
        },
        subst (Spare n) (sym same) (Spare-less n s.heap spare),
        flag,
        λ x k. refl,
      )
      | inr (hole, some_pages, smaller, above, same) ↦
          let q = surplus s.heap in
          let end = s.heap.end_addr in
          let keep : q + 20 ≤ s.heap.size (s.heap.header (sub32 end 8)) = elim keeps [
            | inl busy ↦ absurd (cc)
            | inr (inl nothing) ↦ absurd (ground (arith, some_pages, nothing))
            | inr (inr room) ↦ room
          ] in
          let formed = subst (λ e. Formed s.heap lo e bs) (sym g.stop) g.formed in
          let some : lo < end = omega (arith, g.some_room, g.stop) in
          let grown : Grown lo (end - q) bs (cut q s.heap) =
            cut-Grown s.heap lo end q bs formed refl hole keep some in
          let (start, stop, _, _) = cut-bounds q s.heap in
          (
            t,
            end - q,
            grown.blocks,
            run,
            record {
              backed = b;
              start = ap (λ h. h.start_addr) same ∙ start ∙ g.start;
              stop = ap (λ h. h.end_addr) same ∙ stop ∙ smaller;
              formed = subst (λ h. Formed h lo (end - q) grown.blocks) (sym same) grown.formed;
              some_room = cut_some s.heap lo end q bs formed refl hole keep some;
            },
            subst (Spare n) (sym same) (cut-Spare n q s.heap spare),
            flag,
            grown.used,
          )
    ]
