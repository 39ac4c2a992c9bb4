-- ===== src/Library/Heap/Release.antt =====
-- `free` takes one block from those in use.
use grapes.Prelude.{
  ℕ, ◌+◌, ◌-◌, ◌≡◌, ◌≢◌, inl, inr, refl, ◌∙◌, Bool, true, false, ◌&&◌, ◌||◌, not, List, ltb, leb,
  ◌==◌, arith, Bool-cases, suc, ◌<◌,
}
use grapes.Prelude.Runs.{done, failed}
use grapes.Word.{add32, sub32}
use grapes.Kernel.Heap.{Heap, heap_magic, heap_min_size, footer_size, header_size}
use grapes.Kernel.Heap.Blocks.{Around, starts, starts-Around, starts-inside}
use grapes.Kernel.Heap.Opened.{Formed}
use grapes.Kernel.Heap.Free.{Freed, free-Freed}
use grapes.Library.Heap.{Application, with_heap, join, heap_free}
use grapes.Kernel.Heap.Room.{Spare, Spare-less, unified-Spare}
use grapes.Library.Heap.Blocks.{join-SameBounds}
use grapes.Library.Heap.Interface.{SetHeap}
use grapes.Library.Heap.Backed.{kept}
use grapes.Library.Heap.Sound.{Sound}
use grapes.Library.Heap.Contract.{Keeps, heap_contract-Sound}

-- Joining the block at `loc`, of `n` bytes.
join-Freed :
    (loc lo hi n : ℕ) (bs : List (ℕ × Bool)) (h : Heap)
    → Formed h lo hi bs
    → starts false lo bs loc n ≡ true
    → h.footer_magic (lo - 8) ≢ heap_magic
    → loc + n < hi
    → let r = join (loc + 12) h in Freed loc lo hi bs r.0 r.1 r.2
unfolding join
join-Freed loc lo hi n bs h f s below inner =
    let within = starts-inside h false lo hi bs loc n f.laid s in
    let a : Around false h lo hi bs loc n = starts-Around h false lo hi bs loc n f.laid s in
    let start : sub32 (loc + 12) 12 ≡ loc = omega (arith, within, f.high) in
    let foot : sub32 (add32 loc n) 8 ≡ loc + n - 8 = ground (arith, within, f.high) in
    rw (start, a.block.size, foot) (free-Freed loc lo hi n bs h f s below inner)

join-Spare : (n ptr : ℕ) (h : Heap) → Spare (suc n) h → Spare n (join ptr h).2
unfolding join
join-Spare n ptr h s =
    let start = sub32 ptr header_size in
    unified-Spare n start (sub32 (add32 start (h.size start)) footer_size) h s

module _ {K : Type 0} (calls : SetHeap K) where
  -- The footer of a block of the row is read, and the next header, unless it lies behind the heap.
  pub heap_free-last :
      (loc lo hi n : ℕ) (bs : List (ℕ × Bool)) (s : Application K)
      → Sound calls lo hi bs s
      → starts false lo bs loc n ≡ true
      → loc + n ≡ hi
      → heap_free calls.proc_setheap (loc + 12) s ≡ failed
  unfolding heap_free
  heap_free-last loc lo hi n bs s g used at_end =
      let h = s.heap in
      let within = starts-inside h false lo hi bs loc n g.formed.laid used in
      let a : Around false h lo hi bs loc n =
        starts-Around h false lo hi bs loc n g.formed.laid used in
      let some : ((loc + 12) == 0) ≡ false = ground arith in
      let inside : (ltb (loc + 12) h.start_addr || ltb h.end_addr (loc + 12)) ≡ false =
        ground (arith, within, g.start, g.stop) in
      let start : sub32 (loc + 12) 12 ≡ loc = omega (arith, within, g.formed.high) in
      let foot : sub32 (add32 loc n) 8 ≡ loc + n - 8 = ground (arith, within, g.formed.high) in
      let read : (ltb (loc + n - 8) h.idx || ltb h.end_addr (add32 (loc + n - 8) 8)) ≡ false =
        ground (arith, within, g.start, g.stop, g.backed.index, g.formed.high) in
      let behind : leb h.end_addr (add32 (loc + n - 8) 8) ≡ true =
        ground (arith, within, g.stop, g.formed.high, at_end) in
      rw
        (some, inside, start, a.block.size, foot, a.block.magic, read, a.block.footer_magic, behind)
        refl

  pub heap_free-Sound :
      (loc lo hi n m : ℕ) (bs : List (ℕ × Bool)) (s : Application K)
      → Sound calls lo hi bs s
      → starts false lo bs loc n ≡ true
      → s.heap.footer_magic (lo - 8) ≢ heap_magic
      → loc + n < hi
      → Spare (suc (suc m)) s.heap
      → Keeps (join (loc + 12) s.heap).2
      → (t : Application K) × (hi' : ℕ) × (bs' : List (ℕ × Bool)) × (heap_free calls.proc_setheap
            (loc + 12)
            s
          ≡ done tt t)
        × Sound calls lo hi' bs' t
        × Spare m t.heap
        × (t.heap_ok ≡ s.heap_ok)
        × ((x k : ℕ) → starts false lo bs' x k ≡ (starts false lo bs x k && not (loc == x)))
  unfolding heap_free
  heap_free-Sound loc lo hi n m bs s g used below inner spare keeps =
      let h = s.heap in
      let within = starts-inside h false lo hi bs loc n g.formed.laid used in
      let a : Around false h lo hi bs loc n =
        starts-Around h false lo hi bs loc n g.formed.laid used in
      let freed = join-Freed loc lo hi n bs h g.formed used below inner in
      let (header, footer, joined) = join (loc + 12) h in
      let bounds = join-SameBounds (loc + 12) h in
      let sound : Sound calls lo hi freed.blocks (with_heap joined s) = record {
        backed = kept calls joined s bounds g.backed;
        start = bounds.start_addr ∙ g.start;
        stop = bounds.end_addr ∙ g.stop;
        formed = freed.formed;
        some_room = g.some_room;
      } in
      let some : ((loc + 12) == 0) ≡ false = ground arith in
      let inside : (ltb (loc + 12) h.start_addr || ltb h.end_addr (loc + 12)) ≡ false =
        ground (arith, within, g.start, g.stop) in
      let start : sub32 (loc + 12) 12 ≡ loc = omega (arith, within, g.formed.high) in
      let foot : sub32 (add32 loc n) 8 ≡ loc + n - 8 = ground (arith, within, g.formed.high) in
      let read : (ltb (loc + n - 8) h.idx || ltb h.end_addr (add32 (loc + n - 8) 8)) ≡ false =
        ground (arith, within, g.start, g.stop, g.backed.index, g.formed.high) in
      let ahead : leb h.end_addr (add32 (loc + n - 8) 8) ≡ false =
        ground (arith, within, g.stop, g.formed.high, inner) in
      let spare' = join-Spare (suc m) (loc + 12) h spare in
      let at_end =
        (footer == sub32 joined.end_addr footer_size)
        && (leb 0x2000 (joined.size header)
            && ltb heap_min_size (sub32 joined.end_addr joined.start_addr)) in
      elim (Bool-cases at_end) [
        | inl last ↦
            let (t, hi', bs', run, g', spare'', flag, same) =
              heap_contract-Sound calls m lo hi freed.blocks (with_heap joined s) sound spare'
                keeps in
            (
              t,
              hi',
              bs',
              rw
                  (
                    some, inside, start, a.block.size, foot, a.block.magic, read,
                    a.block.footer_magic, ahead, last,
                  )
                  run,
              g',
              spare'',
              flag,
              λ x k. same x k ∙ freed.used x k,
            )
        | inr stay ↦ (
          with_heap joined s,
          hi,
          freed.blocks,
          rw
              (
                some, inside, start, a.block.size, foot, a.block.magic, read, a.block.footer_magic,
                ahead, stay,
              )
              refl,
          sound,
          Spare-less m joined spare',
          refl,
          freed.used,
        )
      ]
