-- ===== src/Kernel/Segments/Directories.antt =====
-- src/kernel/mem/paging.c: `pagedir_delete`.
use grapes.Prelude.{ℕ, zero, suc, none, some, Option, ◌==◌, if◌then◌else◌}
use grapes.Prelude.Pointers.{Ptr, null}
use grapes.Prelude.Runs.{Ran, done, failed, exhausted, Action, ◌>>◌}
use grapes.Kernel.Paging.{Paging, kernel_tables, kfree_page, free_tables}
use grapes.Kernel.Segments.{Segments, in_paging, seg_unmap}

-- The loop of `pagedir_delete` that unmaps the segments.
unmap_all : (fuel : ℕ) → (pd : Ptr) → Action Segments (Unit {0})
unmap_all zero pd s = exhausted
unmap_all (suc fuel) pd s =
    if s.mapped_segs pd == null
    then done tt s
    else (seg_unmap fuel (s.mapped_segs pd) >> unmap_all fuel pd) s

abbrev ran : Paging → Option Paging → Ran Paging (Unit {0})
ran s none = failed
ran s (some t) = done tt t

-- `pagedir_delete`; `tables_physical` is the page of the array of that name
pub pagedir_delete :
    (fuel : ℕ) → (kernel_pagedir pd tables_physical : Ptr) → Action Segments (Unit {0})
pagedir_delete fuel kernel_pagedir pd tables_physical s =
    (unmap_all fuel pd
        >> (λ t.
            in_paging (ran t.paging (free_tables kernel_tables 0 kernel_pagedir pd t.paging)) t)
        >> λ t. in_paging (ran t.paging (kfree_page kernel_pagedir tables_physical t.paging)) t)
      s
