-- ===== src/Kernel/Segments/Faults.antt =====
-- src/kernel/mem/seg.c, src/kernel/ipc/shm.c and src/kernel/mem/paging.c: page faults. What
-- `paging_fault` prints of a fault that nothing handles is left out.
pub mod Serve
pub mod Sharing
use grapes.Prelude.{
  ℕ, zero, suc, ◌+◌, ◌-◌, ◌*◌, ◌/◌, ◌%◌, Bool, true, false, ◌&&◌, ◌||◌, not, Option, none, some,
  List, [], ◌∷◌, ltb, leb, ◌==◌, if◌then◌else◌, get_elem?, set,
}
use grapes.Prelude.Pointers.{Ptr, null, update}
use grapes.Prelude.Runs.{Ran, done, failed, exhausted, Action, next, return, ◌>>=◌}
use grapes.Word.{add32, sub32, page_floor}
use grapes.Kernel.Frames.{Bitset, frame_alloc}
use grapes.Kernel.Paging.{Page, Paging, Location, get_page, page_map}
use grapes.Kernel.Segments.{Contents, simple, shm, Segments, live, in_paging}

-- `p->frame != 0`
abbrev pub taken : Location → Paging → Bool
taken none s = false
taken (some (table, i)) s = not ((s.pages table i).frame == 0)

-- `page_map(p, frame_alloc(), 1, rw)`; the result is the frame
unfoldable pub map_new_frame : Location → (rw : Bool) → Action Paging ℕ
map_new_frame page rw s = elim (frame_alloc s.frames) [
  | none ↦ failed
  | some (frame, left) ↦ done frame (page_map page frame true rw (record s { frames = left }))
]

-- `simpleseg_handleFault`; the result 1 stands for a fault it does not handle
pub simple_fault :
    (kmalloc_page : Action Paging (ℕ × ℕ))
    → (writable : Bool) → (pd : Ptr) → (address : ℕ) → (write : Bool) → Action Paging ℕ
simple_fault kmalloc_page writable pd address write s =
    if write && not writable
    then done 1 s
    else next (get_page kmalloc_page pd (page_floor address) s) (λ page t.
      if taken page t then done 1 t else (map_new_frame page writable >>= λ frame. return 0) t)

-- `shmseg_handleFault`; with the result comes the array `frames`
unfoldable pub shm_fault :
    (kmalloc_page : Action Paging (ℕ × ℕ))
    → (frames : List ℕ) → (pd : Ptr) → (start address : ℕ) → Action Paging (ℕ × List ℕ)
shm_fault kmalloc_page frames pd start address s =
    let i = sub32 (page_floor address) start / 0x1000 in
    next (get_page kmalloc_page pd (page_floor address) s) (λ page t.
      if taken page t then done (1, frames) t else elim (get_elem? frames i) [
        | none ↦ failed
        | some frame ↦
            if frame == 0
            then (map_new_frame page true >>= λ new. return (0, set frames i new)) t
            else done (0, frames) (page_map page frame true true t)
      ])

-- `handle_fault` of a segment
handle_fault :
    (kmalloc_page : Action Paging (ℕ × ℕ))
    → (map : Ptr) → (address : ℕ) → (write : Bool) → Action Segments ℕ
handle_fault kmalloc_page map address write s =
    let seg = s.map_seg map in
    let pd = s.map_pagedir map in
    live (s.seg_live seg) (elim (s.contents seg) [
      | simple writable start len ↦
          in_paging (simple_fault kmalloc_page writable pd address write s.paging) s
      | shm len frames owner ↦
          (in_paging (shm_fault kmalloc_page frames pd (s.map_start map) address s.paging)
              >>= λ (result, frames') t.
                  done result
                    (record t { contents = update t.contents seg (shm len frames' owner) }))
            s
    ])

-- The map that a fault at `address` is in, from the map `m` on, or null.
unfoldable pub find_map : (fuel : ℕ) → (address : ℕ) → (m : Ptr) → Action Segments Ptr
find_map zero address m s = exhausted
find_map (suc fuel) address m s =
    let rest = find_map fuel address (s.map_next m) s in
    let inside = leb (s.map_start m) address && ltb address (add32 (s.map_start m) (s.map_len m)) in
    if m == null then done null s else live (s.map_live m) (if inside then done m s else rest)

-- `paging_fault` with the cause of the fault: `write` for bit 1 of `err_code`, and `eip`
paging_fault :
    (fuel : ℕ)
    → (kmalloc_page : Action Paging (ℕ × ℕ)) → (current_pagedir : Ptr) → (address eip : ℕ)
    → (write : Bool) → Action Segments ℕ
paging_fault fuel kmalloc_page current_pagedir address eip write s =
    (find_map fuel address (s.mapped_segs current_pagedir) >>= λ map.
    if map == null
    then return 1
    else handle_fault kmalloc_page map address (write && ltb eip 0xE0000000) >>= λ result.
        if result == 0 then return 0 else return 1)
      s
