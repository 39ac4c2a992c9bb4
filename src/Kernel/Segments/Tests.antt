-- ===== src/Kernel/Segments/Tests.antt =====
-- Runs of page tables and segments on a small address space.
use grapes.Prelude.{
  ℕ, suc, ◌+◌, ◌≡◌, refl, ◌⊎◌, true, false, ◌&&◌, ◌||◌, not, [], ◌∷◌, ◌==◌, if◌then◌else◌, arith,
}
use grapes.Prelude.Pointers.{Ptr, null, update, has}
use grapes.Prelude.Runs.{done, failed, Action}
use grapes.Prelude.Bits.{bit}
use grapes.Kernel.Frames.{frame_alloc, first_free, first_free_loop, first_clear, set_bit}
use grapes.Kernel.Frames.Update.{bit_in}
use grapes.Kernel.Paging.{
  Paging, zero_page, update_entry, get_page, make_table, unmap_free_loop, page_rounds, page_map,
}
use grapes.Kernel.Paging.View.{entry, Separate}
use grapes.Kernel.Paging.Range.{Covers, Released, cleared, in_range, unmap_free_loop-Released}
use grapes.Kernel.Segments.{simple, shm, Segments, seg_unmap}
use grapes.Kernel.Segments.Faults.{map_new_frame, simple_fault, shm_fault}
use grapes.Kernel.Segments.Faults.Serve.{Room, AllTaken, Fed, user_page, simple_fault_lem}
use grapes.Kernel.Segments.Faults.Sharing.{shm_fault-shared}
use grapes.Kernel.Segments.Shared.{minus, shmseg_get_by_off, shm_create}
use grapes.Kernel.Segments.Shared.Create.{Shared, shm_create_lem}
use grapes.Kernel.Segments.Unmap.{Detached}
use grapes.Kernel.Segments.Unmap.Last.{Attached, seg_unmap-simple, seg_unmap-shm}

-- The directory 1 has the page table 7 from 0x400000 on, with one page, mapped to the frame 3.
abbrev small_paging : Paging
small_paging = record {
  frames = record { bits = 9 ∷ []; size = 32 };
  tables = update_entry (update_entry (λ p i. null) 1 1 7) 2 1 8;
  physical = λ p i. 0;
  pages = update_entry (λ p i. zero_page) 7 0 (user_page 3 true);
  processes = 1 ∷ 2 ∷ [];
}

small_paging-Separate : Separate small_paging
small_paging-Separate p q i j there same = ground arith

small_paging-Covers : Covers small_paging
small_paging-Covers p b = ground arith

-- no page is left to give
abbrev no_page : Action Paging (ℕ × ℕ)
no_page s = failed

-- The maps 10, of the simple segment 20, and 11, of the shared segment 21, in the directory 1.
abbrev two_maps : Segments
two_maps = record {
  paging = small_paging;
  mapped_segs = update (λ p. null) 1 10;
  map_live = λ p. (p == 10) || (p == 11);
  map_seg = λ p. p + 10;
  map_pagedir = λ p. 1;
  map_start = update (λ p. 0x400000) 11 0x500000;
  map_len = update (λ p. 0x1000) 11 0x2000;
  map_next = update (λ p. null) 10 11;
  seg_live = λ p. (p == 20) || (p == 21);
  contents = update (λ p. simple true 0x400000 0x1000) 21 (shm 0x2000 (0 ∷ 3 ∷ []) 1);
  mappings = λ p. 1;
}

two_maps-Attached :
    (map : Ptr) → (map == 10) || (map == 11) ≡ true → Attached map (10 ∷ 11 ∷ []) two_maps
two_maps-Attached map which = record {
  chain = ground arith;
  apart = ground arith;
  alive = ground arith;
  there = ground arith;
  map_lives = ground arith;
  seg_lives = ground arith;
  counted = ground arith;
  few = ground arith;
  tables = small_paging-Separate;
  aligned = ground arith;
  low = ground arith;
}

small_paging-Room : Room small_paging.frames
small_paging-Room = (ground arith, ground arith, ground arith, ground arith)

unmap_free_loop-Released_example :
    (t : Paging) × (unmap_free_loop page_rounds 1 0x400000 0x402000 small_paging ≡ done tt t)
    × Released 1 0x400000 0x402000 small_paging t
unmap_free_loop-Released_example =
    unmap_free_loop-Released page_rounds 1 0x400000 0x402000 small_paging small_paging-Separate
      small_paging-Covers refl (omega arith) (omega arith)

simple_fault_lem_example :
    let run = simple_fault no_page true 2 0x400123 true small_paging in
    ((false ≡ true)
      × (t : Paging) × (run ≡ done 1 t)
      × ((p : Ptr) (b : ℕ) → entry p b t ≡ entry p b small_paging)
      × (t.frames ≡ small_paging.frames))
    ⊎ ((false ≡ false) × AllTaken small_paging.frames × (run ≡ failed))
    ⊎ ((false ≡ false)
        × (frame : ℕ) × (t : Paging) × (run ≡ done 0 t)
        × Fed 2 0x400123 frame true small_paging t)
simple_fault_lem_example =
    simple_fault_lem no_page true 2 0x400123 true small_paging small_paging-Separate
      (λ e. absurd (omega (arith, e))) (omega arith) small_paging-Room refl

-- What is left of the page tables after a fault at the shared page 0x500000 of the directory 1.
abbrev one_shared : Paging
one_shared = record small_paging {
  frames = record { bits = 11 ∷ []; size = 32 };
  pages =
      update_entry (update_entry (λ p i. zero_page) 7 0 (user_page 3 true)) 7 256
        (user_page 1 true);
}

shm_fault_run :
    shm_fault no_page (0 ∷ 3 ∷ []) 1 0x500000 0x500010 small_paging
    ≡ done (0, 1 ∷ 3 ∷ []) one_shared
unfolding shm_fault get_page make_table map_new_frame page_map frame_alloc first_free
    first_free_loop first_clear set_bit
shm_fault_run = refl

zero_taken : bit_in small_paging.frames.bits 0 ≡ 1
unfolding bit
zero_taken = refl

shm_fault-shared_example :
    (u : Paging) × (shm_fault no_page (1 ∷ 3 ∷ []) 2 0x600000 0x600000 one_shared
      ≡ done (0, 1 ∷ 3 ∷ []) u)
    × ((entry 2 0x600000 u).frame ≡ (entry 1 0x500010 u).frame)
    × ((entry 1 0x500010 u).present ≡ true)
    × ((entry 2 0x600000 u).present ≡ true)
    × (u.frames ≡ one_shared.frames)
shm_fault-shared_example =
    shm_fault-shared no_page (0 ∷ 3 ∷ []) (1 ∷ 3 ∷ []) 1 0x500000 0x500010 small_paging one_shared 2
      0x600000 0x600000 small_paging-Separate (λ e. absurd (omega (arith, e))) (omega arith)
      small_paging-Room zero_taken (refl, refl) 0 refl (omega arith) shm_fault_run
      (λ e. absurd (omega (arith, e))) (omega arith) (refl, refl) refl refl

seg_unmap-simple_example :
    (t : Segments) × (seg_unmap 2 10 two_maps ≡ done tt t)
    × Detached 10 (10 ∷ 11 ∷ []) two_maps t
    × Released 1 0x400000 0x401000 small_paging t.paging
seg_unmap-simple_example =
    seg_unmap-simple 2 10 (10 ∷ 11 ∷ []) two_maps true 0x400000 0x1000 (two_maps-Attached 10 refl)
      (omega arith) refl small_paging-Covers

seg_unmap-shm_example :
    (t : Segments) × (seg_unmap 2 11 two_maps ≡ done tt t)
    × Detached 11 (10 ∷ 11 ∷ []) two_maps t
    × ((p : Ptr) (b : ℕ)
        → entry p b t.paging ≡ (
            if (1 == p) && in_range 0x500000 0x502000 b
            then cleared (entry p b small_paging)
            else entry p b small_paging))
    × ((m : ℕ)
        → bit_in t.paging.frames.bits m
          ≡ (if has m (0 ∷ 3 ∷ []) && not (m == 0) then 0 else bit_in small_paging.frames.bits m))
seg_unmap-shm_example =
    seg_unmap-shm 2 11 (10 ∷ 11 ∷ []) two_maps 0x2000 (0 ∷ 3 ∷ []) 1 (two_maps-Attached 11 refl)
      (omega arith) refl (omega arith, (omega arith, tt))

shm_create_lem_example :
    let run = shm_create 22 12 2 2 0x600000 0x3000 two_maps in
    ((true ≡ false) × (run ≡ done (minus 1) two_maps))
    ⊎ ((true ≡ true)
        × (t : Segments) × (run ≡ done 0 t)
        × Shared 22 12 2 2 0x600000 0x3000 two_maps t
        × ((fuel : ℕ) → shmseg_get_by_off (suc fuel) 2 0x600000 t ≡ done 12 t))
shm_create_lem_example =
    shm_create_lem 22 12 2 2 0x600000 0x3000 two_maps (λ e. ground arith) (omega arith)
      (omega arith)
