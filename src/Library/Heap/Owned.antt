-- ===== src/Library/Heap/Owned.antt =====
-- `malloc` gives an application a block that it does not have yet, and `free` takes it back.
use grapes.Prelude.{
  ℕ, ◌+◌, ◌-◌, ◌^◌, ◌≡◌, ◌≢◌, ◌<◌, ◌≤◌, ◌⊎◌, inl, inr, refl, sym, ap, ◌∙◌, Bool, true, false, ◌&&◌,
  ◌||◌, not, List, [], ◌∷◌, ltb, ◌==◌, arith, suc,
}
use mathlib.Core.Path.{subst}
use native.Mathlib.Decide.{ℕ_discrete}
use grapes.Prelude.Pointers.{null}
use grapes.Prelude.Runs.{done, failed}
use grapes.Kernel.Heap.{heap_magic}
use grapes.Kernel.Heap.Fields.{heap_create-bounds}
use grapes.Kernel.Heap.Blocks.{starts, starts-inside}
use grapes.Kernel.Heap.Opened.{Formed}
use grapes.Kernel.Heap.Take.{Allocated, Allocated-same}
use grapes.Kernel.Heap.Expand.{heap_create-Formed}
use grapes.Kernel.Heap.Room.{Spare, heap_create-Spare}
use grapes.Library.Heap.{Application, join, first_malloc, malloc, free}
use grapes.Library.Heap.Interface.{SetHeap}
use grapes.Library.Heap.Backed.{Backed}
use grapes.Library.Heap.Ready.{heap_create-Backed, malloc_lem, Created}
use grapes.Library.Heap.Sound.{Sound, heap_alloc-Sound}
use grapes.Library.Heap.Contract.{Keeps}
use grapes.Library.Heap.Release.{heap_free-Sound, heap_free-last}

-- where the blocks of the heap of `malloc` start
abbrev pub base : ℕ
base = 0x20010000

module _ {K : Type 0} (calls : SetHeap K) where
  -- The heap is a row of blocks that memory backs, and its index has room for `n` entries more; or
  -- there is no heap yet.
  abbrev pub Usable : (n : ℕ) → (bs : List (ℕ × Bool)) → Application K → Type 0
  Usable n bs s =
      ((s.heap_ok ≡ true) × Spare n s.heap × ((hi : ℕ) × Sound calls base hi bs s))
      ⊎ ((s.heap_ok ≡ false) × (bs ≡ []) × ((old : ℕ) × calls.Backs 0x20000000 old s.kernel))

  heap_create-Sound :
      (t : Application K)
      → Backed calls t
      → Created calls t.heap
      → Sound calls base 0x20110000 ((0x100000, true) ∷ []) (record t { heap_ok = true })
  heap_create-Sound t b (h, made) =
      let (start, stop, _, _) = heap_create-bounds 0x20000000 0x00010000 0x00100000 0x4F000000 h in
      record {
        backed = record {
          backs = b.backs;
          index = b.index;
          blocks = b.blocks;
          limit = b.limit;
          low = b.low;
        };
        start = ap (λ x. x.start_addr) made ∙ start;
        stop = ap (λ x. x.end_addr) made ∙ stop;
        formed =
            subst (λ x. Formed x base 0x20110000 ((0x100000, true) ∷ [])) (sym made)
              (heap_create-Formed 0x20000000 0x00010000 0x00100000 0x4F000000 base h refl
                (omega arith) (omega arith) (omega arith));
        some_room = omega arith;
      }

  first_malloc-Usable :
      (fuel size n : ℕ) (s : Application K) (old : ℕ)
      → n < 0x3000
      → size < 2 ^ 31 - 0x1000
      → 0x80000 ≤ fuel
      → s.heap_ok ≡ false
      → calls.Backs 0x20000000 old s.kernel
      → (p : ℕ) × (t : Application K) × (bs : List (ℕ × Bool)) × (first_malloc calls.proc_setheap
            fuel size s
          ≡ done p t)
        × Usable n bs t
        × Allocated base size p [] bs
  unfolding first_malloc
  first_malloc-Usable fuel size n s old few small enough no_heap backs =
      let (failure, t, run, same, result) = heap_create-Backed calls s old backs in
      elim result [
        | inr (bad, more) ↦ (
          null,
          t,
          [],
          rw (run, bad) refl,
          inr (same ∙ no_heap, refl, more),
          inl (refl, λ x n. refl),
        )
        | inl (ok, b, made) ↦
            let g = heap_create-Sound t b made in
            let spare : Spare (suc n) t.heap = subst (Spare (suc n)) (sym made.1) (
              heap_create-Spare (suc n) 0x20000000 0x00010000 0x00100000 0x4F000000 made.0
                (omega arith) (omega arith)) in
            let (p, u, hi', bs', run', g', spare', flag, a) =
              heap_alloc-Sound calls fuel size n base 0x20110000 ((0x100000, true) ∷ [])
                (record t { heap_ok = true }) small g (inl spare) (omega (arith, b.low, g.stop)) in
            (
              p,
              u,
              bs',
              rw (run, ok) run',
              inl (flag, spare', (hi', g')),
              Allocated-same base size p [] ((0x100000, true) ∷ []) bs' (λ x n. refl) a,
            )
      ]

  -- `malloc` of a size below 2^31 less a page, from the first call on, returns null and leaves the
  -- blocks in use, or it returns the address behind the header of one block more: one that was not
  -- in use, with room for the size between its header and its footer. The blocks still lie one
  -- behind the other, and memory backs them. The index of a heap that there is must have room for
  -- `n` holes and one more; then no entry is written behind its end, and room for `n` is left.
  pub malloc-Usable :
      (fuel size n : ℕ) (bs : List (ℕ × Bool)) (s : Application K)
      → n < 0x3000
      → size < 2 ^ 31 - 0x1000
      → 0x80000 ≤ fuel
      → Usable (suc n) bs s
      → (p : ℕ) × (t : Application K) × (bs' : List (ℕ × Bool)) × (malloc calls.proc_setheap fuel
            size s
          ≡ done p t)
        × Usable n bs' t
        × Allocated base size p bs bs'
  malloc-Usable fuel size n bs s few small enough usable = elim usable [
    | inl (created, spare, (hi, g)) ↦
        let (p, t, hi', bs', run, g', spare', flag, a) =
          heap_alloc-Sound calls fuel size n base hi bs s small g (inl spare)
            (omega (arith, g.backed.low)) in
        (
          p,
          t,
          bs',
          malloc_lem calls fuel size s true created ∙ run,
          inl (flag ∙ created, spare', (hi', g')),
          a,
        )
    | inr (no_heap, empty, (old, backs)) ↦
        let (p, t, bs', run, usable', a) =
          first_malloc-Usable fuel size n s old few small enough no_heap backs in
        (
          p,
          t,
          bs',
          malloc_lem calls fuel size s false no_heap ∙ run,
          usable',
          subst (λ xs. Allocated base size p xs bs') (sym empty) a,
        )
  ]

  -- `free` of a block in use. If it is the last block of the heap, the next header is read behind the
  -- end of the heap, which fails. Otherwise the call returns, and takes exactly that block from those
  -- in use; the blocks still lie one behind the other, and memory backs them; no entry is written
  -- behind the end of the index, which must have room for two entries, and for `m` after the call.
  -- Below the first block there must be no word that looks like the magic number of a footer, and the
  -- last hole must keep room for its header and its footer if it gives memory back.
  pub free-Usable :
      (loc hi n m : ℕ) (bs : List (ℕ × Bool)) (s : Application K)
      → s.heap_ok ≡ true
      → Spare (suc (suc m)) s.heap
      → Sound calls base hi bs s
      → starts false base bs loc n ≡ true
      → s.heap.footer_magic (base - 8) ≢ heap_magic
      → Keeps (join (loc + 12) s.heap).2
      → let run = free calls.proc_setheap (loc + 12) s in
        ((loc + n ≡ hi) × (run ≡ failed))
        ⊎ ((loc + n < hi)
            × ((t : Application K) × (bs' : List (ℕ × Bool)) × (run ≡ done tt t)
                × Usable m bs' t
                × ((x k : ℕ)
                    → starts false base bs' x k ≡ (starts false base bs x k && not (loc == x)))))
  unfolding free
  free-Usable loc hi n m bs s created spare g used below keeps =
      let within = starts-inside s.heap false base hi bs loc n g.formed.laid used in
      let inside : (not s.heap_ok
            || (ltb (loc + 12) s.heap.start_addr || ltb s.heap.end_addr (loc + 12)))
          ≡ false =
        ground (arith, created, within, g.start, g.stop) in
      elim (ℕ_discrete (loc + n) hi) [
        | yes last ↦ inl (last, rw inside (heap_free-last calls loc base hi n bs s g used last))
        | no other ↦
            let inner : loc + n < hi = omega (arith, within, other) in
            let (t, hi', bs', run, g', spare', flag, same) =
              heap_free-Sound calls loc base hi n m bs s g used below inner spare keeps in
            inr (inner, (t, bs', rw inside run, inl (flag ∙ created, spare', (hi', g')), same))
      ]
