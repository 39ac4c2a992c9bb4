-- ===== src/Kernel/Heap/Expand.antt =====
-- The heap grows at its end, by a hole or by more of its last one, and `heap_create` makes the first.
use grapes.Prelude.{
  ℕ, ◌+◌, ◌-◌, ◌≡◌, ◌<◌, ◌≤◌, inl, inr, refl, ap, ◌∙◌, Bool, true, false, List, [], ◌∷◌, ◌++◌,
  arith, Bool-cases, ltb,
}
use grapes.Prelude.Pointers.{update}
use grapes.Word.{u32, add32, sub32, page_up}
use mathlib.Core.Path.{subst}
use grapes.Kernel.Heap.{
  Heap, idx_insert, idx_remove, heap_expand, heap_create, write_footer, write_hole,
}
use grapes.Kernel.Heap.Blocks.{Block, Laid, starts, Laid-same, starts-append, Last, Laid-Last}
use grapes.Kernel.Heap.Opened.{
  Formed, Opened-same, Opened-end, Formed-end, Formed-remove, Opened-hole,
}

-- Blocks of which the same are in use.
pub record Grown (lo hi : ℕ) (bs : List (ℕ × Bool)) (h : Heap) : Type 0 where
  pub blocks : List (ℕ × Bool)
  pub formed : Formed h lo hi blocks
  pub used : (x n : ℕ) → starts false lo blocks x n ≡ starts false lo bs x n

-- Another end of the heap in its record.
pub Formed-end_addr :
    (h : Heap) (lo hi e : ℕ) (bs : List (ℕ × Bool))
    → Formed h lo hi bs
    → Formed (record h { end_addr = e }) lo hi bs
Formed-end_addr h lo hi e bs f = record {
  low = f.low;
  high = f.high;
  laid =
      Laid-same h (record h { end_addr = e }) lo hi bs (λ x l u. (refl, refl, refl, refl, refl))
        f.laid;
  distinct = f.distinct;
  holes = f.holes;
}

-- The last hole, of `m` bytes at `at`, with `m'` bytes.
abbrev pub resized : (at m' : ℕ) → Heap → Heap
resized at m' h =
    write_footer (at + m' - 8) at (record (idx_remove at h) { size = update h.size at m' })

pub resized-Formed :
    (h : Heap) (lo hi at m m' : ℕ) (init : List (ℕ × Bool))
    → Formed h lo hi (init ++ (m, true) ∷ [])
    → Laid h lo at init
    → Block at m h
    → h.is_hole at ≡ true
    → at + m ≡ hi
    → at + m' < u32
    → 20 ≤ m'
    → Formed (idx_insert at (resized at m' h)) lo (at + m') (init ++ (m', true) ∷ [])
unfolding idx_remove
resized-Formed h lo hi at m m' init f left block hole stop fit least =
    Opened-hole (resized at m' h) lo (at + m') init at m' []
      (Opened-same (idx_remove at h) (resized at m' h) lo (at + m') init at m' [] refl
        (λ y out. (ground arith, refl, refl, ground arith, ground arith))
        (Opened-end (idx_remove at h) lo hi init at m m'
          (Formed-remove h lo hi init [] at m left f stop) fit))
      (record {
        least = least;
        size = ground arith;
        magic = block.magic;
        header = ground arith;
        footer_magic = ground arith;
      })
      hole

-- A hole of `m` bytes behind the last block.
abbrev appended : (hi m : ℕ) → Heap → Heap
appended hi m h = write_footer (hi + m - 8) hi (write_hole hi m h)

appended-Formed :
    (h : Heap) (lo hi m : ℕ) (bs : List (ℕ × Bool))
    → Formed h lo hi bs
    → hi + m < u32
    → 20 ≤ m
    → Formed (idx_insert hi (appended hi m h)) lo (hi + m) (bs ++ (m, true) ∷ [])
appended-Formed h lo hi m bs f fit least =
    Opened-hole (appended hi m h) lo (hi + m) bs hi m []
      (Opened-same h (appended hi m h) lo (hi + m) bs hi m [] refl
        (λ y out. (ground arith, ground arith, ground arith, ground arith, ground arith))
        (Formed-end h lo hi bs m f fit))
      (record {
        least = least;
        size = ground arith;
        magic = ground arith;
        header = ground arith;
        footer_magic = ground arith;
      })
      (ground arith)

module _ (h : Heap) (lo hi n : ℕ) (bs : List (ℕ × Bool)) (f : Formed h lo hi bs)
    (stop : h.end_addr ≡ hi) (room : ltb h.max_end (add32 hi (page_up n)) ≡ false)
    (fit : hi + page_up n < u32) (least : 20 ≤ page_up n) where
  expand-hole :
      (l : Last h lo hi bs)
      → l.hole ≡ true
      → heap_expand n h ≡ (
        true,
        record (idx_insert l.at (resized l.at (l.size + page_up n) h)) {
          end_addr = hi + page_up n;
        },
      )
  unfolding heap_expand
  expand-hole l hole =
      let foot : sub32 hi 8 ≡ l.at + l.size - 8 = ground (arith, l.stop, f.high, l.block.least) in
      let sum : add32 (h.size l.at) (page_up n) ≡ l.size + page_up n =
        omega (arith, l.stop, l.block.size) in
      let top : add32 hi (page_up n) ≡ hi + page_up n = omega arith in
      let end_foot : sub32 (hi + page_up n) 8 ≡ l.at + (l.size + page_up n) - 8 =
        ground (arith, l.stop) in
      rw (stop, room, foot, l.block.header, l.is_hole, hole, top, end_foot, sum) refl

  expand-busy :
      (l : Last h lo hi bs)
      → l.hole ≡ false
      → heap_expand n h
        ≡ (true, record (idx_insert hi (appended hi (page_up n) h)) { end_addr = hi + page_up n })
  unfolding heap_expand
  expand-busy l busy =
      let foot : sub32 hi 8 ≡ l.at + l.size - 8 = ground (arith, l.stop, f.high, l.block.least) in
      let top : add32 hi (page_up n) ≡ hi + page_up n = omega arith in
      let end_foot : sub32 (hi + page_up n) 8 ≡ hi + page_up n - 8 = ground arith in
      rw (stop, room, foot, l.block.header, l.is_hole, busy, top, end_foot) refl

  -- `heap_expand` by at least a header and a footer, in a heap that has a block.
  pub heap_expand-Grown : lo < hi → Grown lo (hi + page_up n) bs (heap_expand n h).1
  heap_expand-Grown some = elim (Laid-Last h lo hi bs f.laid) [
    | inl (_, empty) ↦ absurd (omega arith)
    | inr l ↦ elim (Bool-cases l.hole) [
      | inl hole ↦
          let parts = l.parts ∙ ap (λ c. l.init ++ (l.size, c) ∷ []) hole in
          let reach : l.at + (l.size + page_up n) ≡ hi + page_up n = omega (arith, l.stop) in
          rw (expand-hole l hole) (record {
            blocks = l.init ++ (l.size + page_up n, true) ∷ [];
            formed =
                Formed-end_addr (idx_insert l.at (resized l.at (l.size + page_up n) h)) lo
                  (hi + page_up n) (hi + page_up n) (l.init ++ (l.size + page_up n, true) ∷ [])
                  (subst
                    (λ e.
                      Formed (idx_insert l.at (resized l.at (l.size + page_up n) h)) lo e
                        (l.init ++ (l.size + page_up n, true) ∷ []))
                    reach
                    (resized-Formed h lo hi l.at l.size (l.size + page_up n) l.init
                      (subst (Formed h lo hi) parts f) l.left l.block (l.is_hole ∙ hole) l.stop
                      (omega (arith, reach)) (omega arith)));
            used = λ x k. ground (
              arith,
              starts-append h false lo l.at l.init ((l.size + page_up n, true) ∷ []) x k l.left,
              starts-append h false lo l.at l.init ((l.size, true) ∷ []) x k l.left,
              ap (λ xs. starts false lo xs x k) parts,
            );
          })
      | inr busy ↦ rw (expand-busy l busy) (record {
        blocks = bs ++ (page_up n, true) ∷ [];
        formed =
            Formed-end_addr (idx_insert hi (appended hi (page_up n) h)) lo (hi + page_up n)
              (hi + page_up n) (bs ++ (page_up n, true) ∷ [])
              (appended-Formed h lo hi (page_up n) bs f fit least);
        used = λ x k.
            ground (arith, starts-append h false lo hi bs ((page_up n, true) ∷ []) x k f.laid);
      })
    ]
  ]

-- `heap_create` makes one hole of the whole range.
pub heap_create-Formed :
    (start idxsize datasize maxdatasize b : ℕ) (h : Heap)
    → add32 (page_up start) idxsize ≡ b
    → 20 ≤ b
    → 20 ≤ datasize
    → b + datasize < u32
    → Formed
        (heap_create start idxsize datasize maxdatasize h)
        b
        (b + datasize)
        ((datasize, true) ∷ [])
unfolding heap_create
heap_create-Formed start idxsize datasize maxdatasize b h begin low least fit =
    let top : add32 b datasize ≡ b + datasize = omega arith in
    let foot : sub32 (b + datasize) 8 ≡ b + datasize - 8 = ground arith in
    let size : sub32 (b + datasize) b ≡ datasize = omega arith in
    rw (begin, top, foot, size)
      (Opened-hole made b (b + datasize) [] b datasize []
        (record {
          low = low;
          high = fit;
          left = refl;
          right = refl;
          distinct = tt;
          holes = λ y inside. absurd (cc);
        })
        (record {
          least = least;
          size = ground arith;
          magic = ground arith;
          header = ground arith;
          footer_magic = ground arith;
        })
        (ground arith))
  where
    made : Heap
    made = write_footer (b + datasize - 8) b (
        write_hole b datasize (record h {
          start_addr = b;
          end_addr = b + datasize;
          max_end = add32 b maxdatasize;
          idx = page_up start;
          index = [];
          overrun = false;
        }))

pub heap_expand-refused :
    (n : ℕ) (h : Heap)
    → ltb h.max_end (add32 h.end_addr (page_up n)) ≡ true
    → heap_expand n h ≡ (false, h)
unfolding heap_expand
heap_expand-refused n h over = rw over refl

pub heap_expand-grew :
    (n : ℕ) (h : Heap)
    → ltb h.max_end (add32 h.end_addr (page_up n)) ≡ false
    → (heap_expand n h).0 ≡ true
unfolding heap_expand
heap_expand-grew n h room = ground (arith, room)
