-- ===== src/Kernel/Heap/Room.antt =====
-- The index of holes stays in front of the blocks, when it has room for what an operation adds.
use grapes.Prelude.{
  ℕ, suc, ◌+◌, ◌*◌, ◌≡◌, ◌<◌, ◌≤◌, ◌⊎◌, inl, inr, refl, ◌∙◌, sym, ap, true, false, ◌&&◌, List, [],
  ◌∷◌, ltb, ◌==◌, length, arith, Bool-cases,
}
use grapes.Prelude.Pointers.{has, update}
use grapes.Word.{add32, sub32, page_up, u32}
use grapes.Kernel.Heap.{
  Heap, insert_in, remove_in, idx_insert, idx_remove, take_hole, heap_expand, heap_create,
  unify_left, unify_right, write_footer, write_hole, footer_size, heap_magic,
}

-- Room for `n` entries more, and so far none has been written behind the end.
pub record Spare (n : ℕ) (h : Heap) : Type 0 where
  pub fits : h.idx + 4 * (length h.index + n) + 8 ≤ h.start_addr
  pub intact : h.overrun ≡ false

-- The last block is a hole of the index.
abbrev Waiting : Heap → Type 0
Waiting h =
    let last = h.header (sub32 h.end_addr 8) in (has last h.index ≡ true) × (h.is_hole last ≡ true)

-- Room for `n` entries more after the heap has grown.
abbrev pub Growing : ℕ → Heap → Type 0
Growing n h = Spare (suc n) h ⊎ (Spare n h × Waiting h)

pub Spare-less : (n : ℕ) (h : Heap) → Spare (suc n) h → Spare n h
Spare-less n h s = record { fits = omega (arith, s.fits); intact = s.intact }

pub Growing-Spare : (n : ℕ) (h : Heap) → Growing n h → Spare n h
Growing-Spare n h (inl s) = Spare-less n h s
Growing-Spare n h (inr (s, _)) = s

length-insert_in :
    (size : ℕ → ℕ) (e : ℕ) (xs : List ℕ) → length (insert_in size e xs) ≤ suc (length xs)
unfolding insert_in
length-insert_in size e [] = omega arith
length-insert_in size e (x ∷ xs) = ground (arith, length-insert_in size e xs)

has-insert_in : (size : ℕ → ℕ) (e : ℕ) (xs : List ℕ) → has e (insert_in size e xs) ≡ true
unfolding insert_in
has-insert_in size e [] = ground arith
has-insert_in size e (x ∷ xs) = ground (arith, has-insert_in size e xs)

length-remove_in : (e : ℕ) (xs : List ℕ) → length (remove_in e xs) ≤ length xs
unfolding remove_in
length-remove_in e [] = omega arith
length-remove_in e (x ∷ xs) = ground (arith, length-remove_in e xs)

length-remove_has :
    (e : ℕ) (xs : List ℕ) → has e xs ≡ true → suc (length (remove_in e xs)) ≡ length xs
unfolding remove_in
length-remove_has e [] inside = absurd (cc)
length-remove_has e (x ∷ xs) inside = ground (arith, inside, length-remove_has e xs)

pub idx_insert-Spare : (n e : ℕ) (h : Heap) → Spare (suc n) h → Spare n (idx_insert e h)
unfolding idx_insert
idx_insert-Spare n e h s =
    let more = length-insert_in h.size e h.index in
    record { fits = ground (arith, s.fits, more); intact = ground (arith, s.fits, s.intact, more) }

-- With room for it, the hole is in the index then.
idx_insert-has : (n e : ℕ) (h : Heap) → Spare (suc n) h → has e (idx_insert e h).index ≡ true
unfolding idx_insert
idx_insert-has n e h s = ground (arith, s.fits, has-insert_in h.size e h.index)

idx_insert-holes :
    (e : ℕ) (h : Heap)
    → ((idx_insert e h).header ≡ h.header) × ((idx_insert e h).is_hole ≡ h.is_hole)
unfolding idx_insert
idx_insert-holes e h = (ground arith, ground arith)

pub idx_remove-Spare : (n e : ℕ) (h : Heap) → Spare n h → Spare n (idx_remove e h)
unfolding idx_remove
idx_remove-Spare n e h s = record {
  fits = omega (arith, s.fits, length-remove_in e h.index);
  intact = s.intact;
}

idx_remove-freed :
    (n e : ℕ) (h : Heap) → Spare n h → has e h.index ≡ true → Spare (suc n) (idx_remove e h)
unfolding idx_remove
idx_remove-freed n e h s inside = record {
  fits = omega (arith, s.fits, length-remove_has e h.index inside);
  intact = s.intact;
}

-- a heap with the same index in the same place
pub Spare-same :
    (n : ℕ) (h g : Heap)
    → g.idx ≡ h.idx
    → g.start_addr ≡ h.start_addr
    → g.index ≡ h.index
    → g.overrun ≡ h.overrun
    → Spare n h
    → Spare n g
Spare-same n h g i a x o s = record {
  fits = omega (arith, s.fits, i, a, ap length x);
  intact = o ∙ s.intact;
}

-- A hole of the index is taken, and the rest of it enters the index.
pub take_hole-Spare :
    (n loc size : ℕ) (h : Heap)
    → has loc h.index ≡ true
    → Spare n h
    → Spare n (take_hole loc size h).1
unfolding take_hole idx_remove
take_hole-Spare n loc size h inside s =
    let g : Heap = record h { is_hole = update h.is_hole loc false } in
    let freed = idx_remove-freed n loc g (Spare-same n h g refl refl refl refl s) inside in
    let left : Heap = idx_remove loc g in
    elim (Bool-cases (ltb (add32 size 20) (h.size loc))) [
      | inl rest ↦ rw rest (
          idx_insert-Spare n (add32 loc size) _
            (Spare-same (suc n) left _ refl refl refl refl freed))
      | inr whole ↦ rw whole (Spare-less n left freed)
    ]

-- The last block `e`, a hole, enters the index, and the heap ends behind it.
grow :
    (n e end : ℕ) (h : Heap)
    → Spare (suc n) h
    → h.is_hole e ≡ true
    → h.header (sub32 end 8) ≡ e
    → let h' : Heap = record (idx_insert e h) { end_addr = end } in Spare n h' × Waiting h'
grow n e end h s hole last =
    let (header, holes) = idx_insert-holes e h in
    let at : (idx_insert e h).header (sub32 end 8) ≡ e = ap (λ f. f (sub32 end 8)) header ∙ last in
    (
      Spare-same n (idx_insert e h) _ refl refl refl refl (idx_insert-Spare n e h s),
      (
        ap (λ x. has x (idx_insert e h).index) at ∙ idx_insert-has n e h s,
        ap (idx_insert e h).is_hole at ∙ ap (λ f. f e) holes ∙ hole,
      ),
    )

pub heap_expand-Spare :
    (n size : ℕ) (h : Heap)
    → ltb h.max_end (add32 h.end_addr (page_up size)) ≡ false
    → Growing n h
    → let h' = (heap_expand size h).1 in Spare n h' × Waiting h'
unfolding heap_expand
heap_expand-Spare n size h room growing =
    let last = h.header (sub32 h.end_addr footer_size) in
    let end = add32 h.end_addr (page_up size) in
    elim (Bool-cases (h.is_hole last)) [
      | inl hole ↦
          rw (room, hole)
            (grow n last end _
              (Spare-same (suc n) (idx_remove last h) _ refl refl refl refl
                (removed last refl growing))
              hole (ground arith))
      | inr used ↦ elim growing [
        | inr (_, (_, hole)) ↦ absurd (cc)
        | inl s ↦
            rw (room, used)
              (grow n h.end_addr end _ (Spare-same (suc n) h _ refl refl refl refl s) (ground arith)
                (ground arith))
      ]
    ]
  where
    removed :
        (last : ℕ)
        → h.header (sub32 h.end_addr 8) ≡ last
        → Growing n h
        → Spare (suc n) (idx_remove last h)
    removed last e (inl s) = idx_remove-Spare (suc n) last h s
    removed last e (inr (s, (inside, _))) =
        idx_remove-freed n last h s (ap (λ x. has x h.index) (sym e) ∙ inside)

unify_left-Spare : (n a b : ℕ) (h : Heap) → Spare n h → Spare n (unify_left a b h).1
unfolding unify_left
unify_left-Spare n a b h s =
    let at = sub32 a footer_size in
    let prev = h.header at in
    elim (Bool-cases ((h.footer_magic at == heap_magic) && h.is_hole prev)) [
      | inl hole ↦
          rw hole
            (Spare-same n (idx_remove prev h) _ refl refl refl refl (idx_remove-Spare n prev h s))
      | inr other ↦ rw other s
    ]

unify_right-Spare : (n a b : ℕ) (h : Heap) → Spare n h → Spare n (unify_right a b h).1
unfolding unify_right
unify_right-Spare n a b h s =
    let next = add32 b footer_size in
    elim (Bool-cases ((h.magic next == heap_magic) && h.is_hole next)) [
      | inl hole ↦
          rw hole
            (Spare-same n (idx_remove next h) _ refl refl refl refl (idx_remove-Spare n next h s))
      | inr other ↦ rw other s
    ]

-- A block is joined with its neighbours, and enters the index.
pub unified-Spare :
    (n start foot : ℕ) (h : Heap)
    → Spare (suc n) h
    → let l = unify_left start foot h in
      let r = unify_right l.0 foot l.1 in
      Spare n (idx_insert l.0 (record r.1 { is_hole = update r.1.is_hole l.0 true }))
unified-Spare n start foot h s =
    let l = unify_left start foot h in
    let r = unify_right l.0 foot l.1 in
    idx_insert-Spare n l.0 (record r.1 { is_hole = update r.1.is_hole l.0 true })
      (Spare-same (suc n) r.1 _ refl refl refl refl
        (unify_right-Spare (suc n) l.0 foot l.1 (unify_left-Spare (suc n) start foot h s)))

-- The index of a new heap has only its first hole.
pub heap_create-Spare :
    (n start idxsize datasize maxdatasize : ℕ) (h : Heap)
    → 4 * (n + 1) + 8 ≤ idxsize
    → page_up start + idxsize < u32
    → Spare n (heap_create start idxsize datasize maxdatasize h)
unfolding heap_create
heap_create-Spare n start idxsize datasize maxdatasize h room fit =
    let begin = add32 (page_up start) idxsize in
    let finish = add32 begin datasize in
    let made : Heap = write_footer (sub32 finish footer_size) begin (
      write_hole begin (sub32 finish begin) (record h {
        start_addr = begin;
        end_addr = finish;
        max_end = add32 begin maxdatasize;
        idx = page_up start;
        index = [];
        overrun = false;
      })) in
    idx_insert-Spare n begin made (record { fits = omega (arith, room, fit); intact = refl })
