-- ===== src/Library/Heap.antt =====
-- src/library/gc/mem.c: the heap of an application. Its code is that of src/kernel/mem/heap.c but for
-- the pages: here the kernel is asked for more or less memory by `proc_setheap`. What the two files
-- have in common is used from Kernel/Heap: the index of holes, the first block, the block that is
-- added at the end or taken, and the neighbours that are joined.
pub mod Interface
pub mod Blocks
pub mod Backed
pub mod Ready
pub mod Sound
pub mod Release
pub mod Contract
pub mod Owned
pub mod System
mod Tests
mod Samples
use grapes.Prelude.{
  ℕ, zero, suc, ◌+◌, ◌-◌, ◌*◌, ◌/◌, ◌%◌, Bool, true, false, ◌&&◌, ◌||◌, not, Option, none, some,
  ltb, leb, ◌==◌, if◌then◌else◌,
}
use grapes.Prelude.Pointers.{update, null}
use grapes.Prelude.Runs.{Ran, done, failed, exhausted, Action, within, return, ◌>>=◌}
use grapes.Word.{u32, add32, sub32, page_floor, page_up}
use grapes.Kernel.Heap as KernelHeap
use grapes.Kernel.Heap.{
  Heap, heap_magic, heap_min_size, header_size, footer_size, write_footer, idx_insert, idx_remove,
  find_hole, take_hole, excess, unify_left, unify_right,
}

-- The variables `h` and `heap_ok`, and the state of the kernel.
pub record Application (K : Type 0) : Type 0 where
  pub heap : Heap
  pub heap_ok : Bool
  pub kernel : K

abbrev pub with_heap : {K : Type 0} → Heap → Application K → Application K
with_heap h s = record s { heap = h }

-- The last block, smaller by `quantity`, and the end of the heap.
pub cut : (quantity : ℕ) → Heap → Heap
cut quantity h =
    let last = h.header (sub32 h.end_addr footer_size) in
    let footer = sub32 (sub32 h.end_addr footer_size) quantity in
    record (idx_insert last (
      write_footer footer last (record (idx_remove last h) {
        size = update h.size last (sub32 (h.size last) quantity);
      }))) { end_addr = sub32 h.end_addr quantity }

-- The footer of the block that is freed, joined with its neighbours, and the heap.
pub join : ℕ → Heap → ℕ × ℕ × Heap
join ptr h =
    let start = sub32 ptr header_size in
    let foot = sub32 (add32 start (h.size start)) footer_size in
    let (header, left) = unify_left start foot h in
    let (footer, right) = unify_right header foot left in
    (
      header,
      footer,
      idx_insert header (record right { is_hole = update right.is_hole header true }),
    )

-- `heap_alloc` with the hole that it has found, or what it does without one
abbrev take_or :
    {K : Type 0} → Option ℕ → (newsize : ℕ) → Action (Application K) ℕ → Action (Application K) ℕ
take_or (some loc) newsize expand s =
    done (take_hole loc newsize s.heap).0 (with_heap (take_hole loc newsize s.heap).1 s)
take_or none newsize expand s = expand s

abbrev if_larger : {K : Type 0} → Bool → Action (Application K) ℕ → Action (Application K) ℕ
if_larger true again s = again s
if_larger false again s = done null s

module _ {K : Type 0} (proc_setheap : (start stop : ℕ) → Action K ℕ) where
  -- `setheapseg`, which is called for the heap `h` only: whether it failed
  pub setheapseg : (start stop : ℕ) → Action (Application K) Bool
  setheapseg start stop =
      (λ s. within (λ k. record s { kernel = k }) (proc_setheap start stop s.kernel)) >>= λ r.
      return (not (r == 0))

  -- `heap_create`: whether it failed
  pub heap_create : (start idxsize datasize maxdatasize : ℕ) → Action (Application K) Bool
  heap_create start idxsize datasize maxdatasize s =
      let first = page_up start in
      let begin = add32 first idxsize in
      let finish = add32 begin datasize in
      (setheapseg first finish >>= λ failure t.
      if failure
      then done true t
      else done false
          (with_heap (KernelHeap.heap_create start idxsize datasize maxdatasize t.heap) t))
        (with_heap
          (record s.heap {
            start_addr = begin;
            end_addr = finish;
            max_end = add32 begin maxdatasize;
          })
          s)

  -- `heap_expand`: whether it did
  pub heap_expand : ℕ → Action (Application K) Bool
  heap_expand n s =
      let new_end = add32 s.heap.end_addr (page_up n) in
      if ltb s.heap.max_end new_end
      then done false s
      else (setheapseg s.heap.idx new_end >>= λ failure t.
            if failure
            then done false t
            else done true (with_heap (KernelHeap.heap_expand n t.heap).1 t))
          s

  -- `heap_contract`
  pub heap_contract : Action (Application K) (Unit {0})
  heap_contract s =
      let h = s.heap in
      let last = h.header (sub32 h.end_addr footer_size) in
      let quantity =
        excess (h.size last / 0x1000 + 1) (sub32 h.end_addr h.start_addr) (h.size last) 0 in
      if not (h.is_hole last)
      then done tt s
      else if quantity == 0
      then done tt s
      else (setheapseg h.idx (sub32 h.end_addr quantity) >>= λ failure t.
            if failure then done tt t else done tt (with_heap (cut quantity t.heap) t))
          s

  -- `heap_alloc`, with the calls of itself that are left
  pub heap_alloc : (fuel : ℕ) → ℕ → Action (Application K) ℕ
  heap_alloc zero sz s = exhausted
  heap_alloc (suc fuel) sz s =
      let newsize = add32 sz (header_size + footer_size) in
      let again = heap_alloc fuel sz in
      take_or (find_hole newsize s.heap.size s.heap.index) newsize
        (heap_expand (add32 (page_floor sz) 0x1000) >>= λ larger. if_larger larger again) s

  -- `heap_free`; a read of a footer or of the next header outside of the segment of the heap fails
  pub heap_free : ℕ → Action (Application K) (Unit {0})
  heap_free ptr s =
      let h = s.heap in
      let start = sub32 ptr header_size in
      let foot = sub32 (add32 start (h.size start)) footer_size in
      let (header, footer, freed) = join ptr h in
      let t = with_heap freed s in
      if ptr == 0
      then done tt s
      else if ltb ptr h.start_addr || ltb h.end_addr ptr
      then done tt s
      else if not (h.magic start == heap_magic)
      then done tt s
      else if ltb foot h.idx || ltb h.end_addr (add32 foot footer_size)
      then failed
      else if not (h.footer_magic foot == heap_magic)
      then done tt s
      else if leb h.end_addr (add32 foot footer_size)
      then failed
      else if (footer == sub32 freed.end_addr footer_size)
          && (leb 0x2000 (freed.size header)
              && ltb heap_min_size (sub32 freed.end_addr freed.start_addr))
      then heap_contract t
      else done tt t

  -- the first call of `malloc`
  pub first_malloc : (fuel : ℕ) → ℕ → Action (Application K) ℕ
  first_malloc fuel size s =
      (heap_create 0x20000000 0x00010000 0x00100000 0x4F000000 >>= λ failure t.
      if failure then done null t else heap_alloc fuel size (record t { heap_ok = true }))
        s

  -- `malloc`
  pub malloc : (fuel : ℕ) → ℕ → Action (Application K) ℕ
  malloc fuel size s = if s.heap_ok then heap_alloc fuel size s else first_malloc fuel size s

  -- `free`
  pub free : ℕ → Action (Application K) (Unit {0})
  free p s =
      if not s.heap_ok || (ltb p s.heap.start_addr || ltb s.heap.end_addr p)
      then done tt s
      else heap_free p s
