-- ===== src/Kernel/Paging.antt =====
-- src/kernel/mem/paging.c: page tables, and the mapping of pages to frames. A page table, a page
-- directory and a page of one are addresses. `kmalloc_page`, which returns the addresses of a new table,
-- virtual and physical, and may itself take frames and map pages of the kernel, is an argument. The
-- registers of the processor are left out.
pub mod View
pub mod Tables
pub mod Range
use Prim.Native.Nat.{bit_or}
use grapes.Prelude.{
  ℕ, zero, suc, ◌+◌, ◌-◌, ◌*◌, ◌/◌, ◌%◌, ◌^◌, Bool, true, false, ◌&&◌, not, Option, none, some,
  List, [], ◌∷◌, ltb, ◌==◌, if◌then◌else◌,
}
use grapes.Prelude.Pointers.{Ptr, null, update}
use grapes.Prelude.Runs.{Ran, done, failed, exhausted, Action, ◌>>=◌}
use grapes.Word.{add32}
use grapes.Kernel.Frames.{Bitset, frame_alloc, frame_free}

-- `struct page`
pub record Page : Type 0 where
  pub present : Bool
  pub rw : Bool
  pub user : Bool
  pub frame : ℕ

-- a page of a table that `memset` has cleared
abbrev pub zero_page : Page
zero_page = record { present = false; rw = false; user = false; frame = 0 }

-- The free frames; `tables` and `tablesPhysical` of every directory; the pages of every table; and
-- the directories of the list `processes`.
pub record Paging : Type 0 where
  pub frames : Bitset
  pub tables : Ptr → ℕ → Ptr
  pub physical : Ptr → ℕ → ℕ
  pub pages : Ptr → ℕ → Page
  pub processes : List Ptr

-- A `struct page *`: a table and an index, or null.
abbrev pub Location : Type 0
Location = Option (Ptr × ℕ)

-- one entry of a directory, or of a table
abbrev pub update_entry : {A : Type 0} → (Ptr → ℕ → A) → Ptr → ℕ → A → Ptr → ℕ → A
update_entry f p i v = update f p (update (f p) i v)

abbrev pub table_index : ℕ → ℕ
table_index address = address / 0x1000 / 1024

abbrev pub page_index : ℕ → ℕ
page_index address = address / 0x1000 % 1024

-- The first page table of the kernel's part of every directory.
abbrev pub kernel_tables : ℕ
kernel_tables = 896

-- `tasking_updateKernelPagetable` of src/kernel/task/task.c
pub update_loop : (idx table physical : ℕ) → List Ptr → Paging → Paging
update_loop idx table physical [] s = s
update_loop idx table physical (pd ∷ rest) s = update_loop idx table physical rest (record s {
  tables = update_entry s.tables pd idx table;
  physical = update_entry s.physical pd idx physical;
})

pub update_kernel_pagetable : (idx table physical : ℕ) → Paging → Paging
unfolding update_loop
update_kernel_pagetable idx table physical s =
    if ltb idx kernel_tables then s else update_loop idx table physical s.processes s

-- The page table that `pagedir_getPage` makes.
unfoldable pub make_table : (fresh phys : ℕ) → (pd : Ptr) → (idx : ℕ) → Paging → Paging
unfolding update_kernel_pagetable
make_table fresh phys pd idx s =
    let s1 : Paging = record s {
      tables = update_entry s.tables pd idx fresh;
      physical = update_entry s.physical pd idx phys;
    } in
    let s2 = if ltb idx kernel_tables then s1 else update_kernel_pagetable idx fresh phys s1 in
    record s2 {
      pages = update s2.pages fresh (λ i. zero_page);
      physical = update_entry s2.physical pd idx (bit_or (s2.physical pd idx) 7);
    }

-- `pagedir_getPage` without `make`
unfoldable pub find_page : (pd : Ptr) → (address : ℕ) → Paging → Location
find_page pd address s =
    if s.tables pd (table_index address) == null
    then none
    else some (s.tables pd (table_index address), page_index address)

-- `pagedir_getPage` with `make`
unfoldable pub get_page :
    (kmalloc_page : Action Paging (ℕ × ℕ)) → (pd : Ptr) → (address : ℕ) → Action Paging Location
unfolding make_table
get_page kmalloc_page pd address s =
    let idx = table_index address in
    let made =
      (kmalloc_page >>= λ (table, phys) t.
      done (some (table, page_index address)) (make_table table phys pd idx t))
        s in
    if s.tables pd idx == null then made else done (some (s.tables pd idx, page_index address)) s

abbrev pub set_page : Ptr → ℕ → Page → Paging → Paging
set_page table i page s = record s { pages = update_entry s.pages table i page }

-- `page_map`; the field `frame` has 20 bits
unfoldable pub page_map : Location → (frame : ℕ) → (user rw : Bool) → Paging → Paging
page_map none frame user rw s = s
page_map (some (table, i)) frame user rw s =
    let page = s.pages table i in
    if (page.frame == 0) && not page.present
    then set_page table i (record { present = true; rw = rw; user = user; frame = frame % 2 ^ 20 })
        s
    else s

-- `page_unmap`
unfoldable pub page_unmap : Location → Paging → Paging
page_unmap none s = s
page_unmap (some (table, i)) s =
    set_page table i (record (s.pages table i) { present = false; frame = 0 }) s

abbrev with_frames : Paging → Option Bitset → Option Paging
with_frames s none = none
with_frames s (some t) = some (record s { frames = t })

-- `page_unmapFree`; it fails if the frame is outside the bit set
pub page_unmap_free : Location → Paging → Option Paging
unfolding page_unmap
page_unmap_free none s = some s
page_unmap_free (some (table, i)) s =
    if (s.pages table i).frame == 0
    then some (page_unmap (some (table, i)) s)
    else elim (with_frames s (frame_free ((s.pages table i).frame) s.frames)) [
      | none ↦ none
      | some t ↦ some (page_unmap (some (table, i)) t)
    ]

-- `for (i = start; i < stop; i += 0x1000) page_unmapFree(pagedir_getPage(pd, i, 0));`
pub unmap_free_loop : (fuel : ℕ) → (pd : Ptr) → (i stop : ℕ) → Paging → Ran Paging (Unit {0})
unfolding page_unmap_free find_page
unmap_free_loop zero pd i stop s = if ltb i stop then exhausted else done tt s
unmap_free_loop (suc fuel) pd i stop s =
    if ltb i stop
    then elim (page_unmap_free (find_page pd i s) s) [
      | none ↦ failed
      | some t ↦ unmap_free_loop fuel pd (add32 i 0x1000) stop t
    ]
    else done tt s

-- `pagedir_new`, at the address `pd`: the kernel's part is that of `kernel_pagedir`
pub pagedir_new : (pd kernel_pagedir : Ptr) → Paging → Paging
pagedir_new pd kernel_pagedir s = record s {
  tables =
      update s.tables pd (λ i. if ltb i kernel_tables then null else s.tables kernel_pagedir i);
  physical =
      update s.physical pd (λ i. if ltb i kernel_tables then 0 else s.physical kernel_pagedir i);
}

-- the rounds that any range below the end of the address space needs at most
abbrev pub page_rounds : ℕ
page_rounds = 0x100000

-- `kfree_page` of src/kernel/mem/mem.c, once the kernel's heap works
pub kfree_page : (kernel_pagedir : Ptr) → (page : ℕ) → Paging → Option Paging
unfolding page_unmap_free find_page
kfree_page kernel_pagedir page s = page_unmap_free (find_page kernel_pagedir page s) s

-- the loop of `pagedir_delete` over the page tables, from table `i` on with `n` left
pub free_tables : (n i : ℕ) → (kernel_pagedir pd : Ptr) → Paging → Option Paging
unfolding kfree_page
free_tables zero i kernel_pagedir pd s = some s
free_tables (suc n) i kernel_pagedir pd s = elim (kfree_page kernel_pagedir (s.tables pd i) s) [
  | none ↦ none
  | some t ↦ free_tables n (i + 1) kernel_pagedir pd t
]
