-- ===== src/Kernel/Heap.antt =====
-- src/kernel/mem/heap.c: the kernel's heap. Headers and footers are kept as functions of their
-- addresses, so what a program writes into its block does not reach them; the index of holes is a
-- list, and `overrun` tells whether it has outgrown its place. Mapping and unmapping pages is left
-- out.
pub mod Index
pub mod Fields
pub mod Blocks
pub mod Opened
pub mod Take
pub mod Join
pub mod Free
pub mod Expand
pub mod Alloc
pub mod Room
mod Tests
use grapes.Prelude.{
  ℕ, zero, suc, ◌+◌, ◌-◌, ◌*◌, ◌/◌, ◌%◌, Bool, true, false, ◌&&◌, ◌||◌, not, Option, none, some,
  List, [], ◌∷◌, ltb, leb, ◌==◌, if◌then◌else◌, length,
}
use grapes.Prelude.Pointers.{update}
use grapes.Word.{u32, add32, sub32, page_floor, page_up}

abbrev pub heap_magic : ℕ
heap_magic = 0xBAD0BEEF

abbrev pub heap_min_size : ℕ
heap_min_size = 0x4000

-- `sizeof(struct heap_header)` and `sizeof(struct heap_footer)`
abbrev pub header_size : ℕ
header_size = 12

abbrev pub footer_size : ℕ
footer_size = 8

-- `struct heap`, with the headers and footers; `index` is what `idx` holds up to `idxused`. `overrun`
-- tells whether an entry of the index was written over the last eight bytes before the first block,
-- which `heap_free` reads as a footer, or over the blocks: what they then hold is not followed.
pub record Heap : Type 0 where
  pub start_addr : ℕ
  pub end_addr : ℕ
  pub max_end : ℕ
  pub idx : ℕ
  pub index : List ℕ
  pub overrun : Bool
  pub size : ℕ → ℕ
  pub magic : ℕ → ℕ
  pub is_hole : ℕ → Bool
  pub header : ℕ → ℕ
  pub footer_magic : ℕ → ℕ

-- The place of a hole in the index: before the first that is no smaller. A hole that the search
-- meets is not put in again.
unfoldable pub insert_in : (size : ℕ → ℕ) → ℕ → List ℕ → List ℕ
insert_in size e [] = e ∷ []
insert_in size e (x ∷ xs) =
    let rest = insert_in size e xs in
    if ltb (size x) (size e) then (if x == e then x ∷ xs else x ∷ rest) else e ∷ x ∷ xs

-- `heapIdx_insert`; its test for room counts bytes and entries alike
unfoldable pub idx_insert : ℕ → Heap → Heap
unfolding insert_in
idx_insert e h =
    let index = insert_in h.size e h.index in
    if leb h.start_addr (add32 (add32 (length h.index) 4) h.idx) then h else record h {
      index = index;
      overrun = h.overrun || ltb h.start_addr (h.idx + 4 * length index + 8);
    }

-- The loops of `heapIdx_remove`.
unfoldable pub remove_in : ℕ → List ℕ → List ℕ
remove_in e [] = []
remove_in e (x ∷ xs) = let rest = remove_in e xs in if x == e then xs else x ∷ rest

-- `heapIdx_remove`
unfoldable pub idx_remove : ℕ → Heap → Heap
unfolding remove_in
idx_remove e h = record h { index = remove_in e h.index }

-- a footer's two fields
abbrev pub write_footer : (at header : ℕ) → Heap → Heap
write_footer at header h = record h {
  header = update h.header at header;
  footer_magic = update h.footer_magic at heap_magic;
}

abbrev pub write_hole : (at size : ℕ) → Heap → Heap
write_hole at size h = record h {
  size = update h.size at size;
  magic = update h.magic at heap_magic;
  is_hole = update h.is_hole at true;
}

-- `heap_create`; the headers and footers are what memory held before
pub heap_create : (start idxsize datasize maxdatasize : ℕ) → Heap → Heap
unfolding idx_insert
heap_create start idxsize datasize maxdatasize h =
    let first = page_up start in
    let begin = add32 first idxsize in
    let finish = add32 begin datasize in
    idx_insert begin (
      write_footer (sub32 finish footer_size) begin (
        write_hole begin (sub32 finish begin) (record h {
          start_addr = begin;
          end_addr = finish;
          max_end = add32 begin maxdatasize;
          idx = first;
          index = [];
          overrun = false;
        })))

-- `heap_expand`: whether it did, and the heap
pub heap_expand : ℕ → Heap → Bool × Heap
unfolding idx_insert idx_remove
heap_expand n h =
    let quantity = page_up n in
    let new_end = add32 h.end_addr quantity in
    let last = h.header (sub32 h.end_addr footer_size) in
    if ltb h.max_end new_end
    then (false, h)
    else if h.is_hole last
    then (
      true,
      record (idx_insert last (
          write_footer (sub32 new_end footer_size) last (record (idx_remove last h) {
            size = update h.size last (add32 (h.size last) quantity);
          }))) { end_addr = new_end },
    )
    else (
      true,
      record (idx_insert h.end_addr (
          write_footer (sub32 new_end footer_size) h.end_addr (write_hole h.end_addr quantity h))) {
            end_addr = new_end;
          },
    )

-- The first hole of the index that is large enough.
pub find_hole : ℕ → (size : ℕ → ℕ) → List ℕ → Option ℕ
find_hole need size [] = none
find_hole need size (x ∷ xs) =
    let rest = find_hole need size xs in if leb need (size x) then some x else rest

-- What `heap_alloc` does with the hole that it has found.
pub take_hole : (loc newsize : ℕ) → Heap → ℕ × Heap
unfolding idx_insert idx_remove
take_hole loc newsize h =
    let footer = sub32 (add32 loc (h.size loc)) footer_size in
    let next = add32 loc newsize in
    let g : Heap = idx_remove loc (record h { is_hole = update h.is_hole loc false }) in
    if ltb (add32 newsize (header_size + footer_size)) (g.size loc)
    then (
      add32 loc header_size,
      idx_insert next (
          write_footer footer next (
            write_hole next (add32 (sub32 footer next) footer_size) (
              write_footer (sub32 next footer_size) loc
                (record g { size = update g.size loc newsize })))),
    )
    else (add32 loc header_size, g)

-- `heap_alloc` with the hole that it has found, or what it does without one
abbrev take_or : Option ℕ → (newsize : ℕ) → Heap → Option (ℕ × Heap) → Option (ℕ × Heap)
take_or (some loc) newsize h without = some (take_hole loc newsize h)
take_or none newsize h without = without

-- `heap_alloc`, with the calls of itself that are left; without any the outer result is none
pub heap_alloc : (fuel : ℕ) → ℕ → Heap → Option (ℕ × Heap)
heap_alloc zero sz h = none
heap_alloc (suc fuel) sz h =
    let newsize = add32 sz (header_size + footer_size) in
    let expanded = heap_expand (add32 (page_floor sz) 0x1000) h in
    let again = heap_alloc fuel sz expanded.1 in
    take_or (find_hole newsize h.size h.index) newsize h (if expanded.0 then again else some (0, h))

-- The quantity by which `heap_contract` reduces the heap.
pub excess : (fuel : ℕ) → (heap_size hole_size quantity : ℕ) → ℕ
excess zero heap_size hole_size quantity = quantity
excess (suc fuel) heap_size hole_size quantity =
    let more = excess fuel heap_size hole_size (add32 quantity 0x1000) in
    if ltb heap_min_size (sub32 heap_size quantity) && ltb 0x1000 (sub32 hole_size quantity)
    then more
    else quantity

-- The loop of `heap_contract` that frees pages: where it leaves `end_addr`.
pub free_pages : (fuel : ℕ) → (end_addr new_end : ℕ) → ℕ
free_pages zero end_addr new_end = end_addr
free_pages (suc fuel) end_addr new_end =
    let rest = free_pages fuel (sub32 end_addr 0x1000) new_end in
    if leb new_end end_addr then rest else end_addr

-- What `heap_contract` does for a quantity that is not 0.
pub contract_by : (quantity last : ℕ) → Heap → Heap
unfolding idx_insert idx_remove free_pages
contract_by quantity last h =
    let new_end = sub32 h.end_addr quantity in
    let footer = sub32 (sub32 h.end_addr footer_size) quantity in
    record (idx_insert last (
      write_footer footer last (record (idx_remove last h) {
        size = update h.size last (sub32 (h.size last) quantity);
      }))) { end_addr = free_pages (quantity / 0x1000 + 1) (sub32 h.end_addr 0x1000) new_end }

-- `heap_contract`
pub heap_contract : Heap → Heap
unfolding excess contract_by
heap_contract h =
    let last = h.header (sub32 h.end_addr footer_size) in
    let quantity =
      excess (h.size last / 0x1000 + 1) (sub32 h.end_addr h.start_addr) (h.size last) 0 in
    if not (h.is_hole last) then h else if quantity == 0 then h else contract_by quantity last h

-- A block whose header moves to `header`, with the footer at `footer`.
abbrev pub stretch : (header footer : ℕ) → Heap → Heap
stretch header footer h = record h {
  header = update h.header footer header;
  size = update h.size header (add32 (sub32 footer header) footer_size);
}

-- "Unify left" of `heap_free`: the header of the block, and the heap
unfoldable pub unify_left : (header footer : ℕ) → Heap → ℕ × Heap
unfolding idx_remove
unify_left header footer h =
    let prev_footer = sub32 header footer_size in
    let prev = h.header prev_footer in
    if (h.footer_magic prev_footer == heap_magic) && h.is_hole prev
    then (prev, stretch prev footer (idx_remove prev h))
    else (header, h)

-- "Unify right": the footer of the block, and the heap
unfoldable pub unify_right : (header footer : ℕ) → Heap → ℕ × Heap
unfolding idx_remove
unify_right header footer h =
    let next = add32 footer footer_size in
    let end = add32 footer (h.size next) in
    if (h.magic next == heap_magic) && h.is_hole next
    then (end, stretch header end (idx_remove next h))
    else (footer, h)

-- `heap_free`; a read of a footer or of the next header behind the heap, or below its index, is none
pub heap_free : ℕ → Heap → Option Heap
unfolding unify_left unify_right idx_insert heap_contract
heap_free ptr h =
    let start = sub32 ptr header_size in
    let foot = sub32 (add32 start (h.size start)) footer_size in
    let (header, left) = unify_left start foot h in
    let (footer, right) = unify_right header foot left in
    let freed : Heap =
      idx_insert header (record right { is_hole = update right.is_hole header true }) in
    if ptr == 0
    then some h
    else if ltb ptr h.start_addr || ltb h.end_addr ptr
    then some h
    else if not (h.magic start == heap_magic)
    then some h
    else if ltb foot h.idx || ltb h.end_addr (add32 foot footer_size)
    then none
    else if not (h.footer_magic foot == heap_magic)
    then some h
    else if leb h.end_addr (add32 foot footer_size)
    then none
    else if (footer == sub32 freed.end_addr footer_size)
        && (leb 0x2000 (freed.size header)
            && ltb heap_min_size (sub32 freed.end_addr freed.start_addr))
    then some (heap_contract freed)
    else some freed
