-- ===== src/Kernel/Segments.antt =====
-- src/kernel/mem/seg.c and src/kernel/ipc/shm.c: segments, which are simple or shared, and their
-- maps in page directories; and the parts of paging.c and task.c that go through them. The methods
-- of a segment are dispatched on its contents, which stand for `seg_data` and the four pointers.
-- `kmalloc` and `kmalloc_page` supply addresses as arguments.
pub mod Faults
pub mod Unmap
pub mod Shared
pub mod Created
pub mod Directories
mod Tests
use grapes.Prelude.{
  ℕ, zero, suc, ◌+◌, ◌-◌, ◌*◌, ◌/◌, ◌%◌, Bool, true, false, ◌&&◌, ◌||◌, not, Option, none, some,
  List, [], ◌∷◌, ltb, leb, ◌==◌, if◌then◌else◌, get_elem?, set, replicate,
}
use grapes.Prelude.Pointers.{Ptr, null, update}
use grapes.Prelude.Runs.{Ran, done, failed, exhausted, Action, return, ◌>>=◌, ◌>>◌}
use grapes.Word.{u32, add32, sub32, page_floor, page_up}
use grapes.Kernel.Frames.{Bitset, frame_alloc, frame_free}
use grapes.Kernel.Paging.{
  Page, Paging, Location, find_page, get_page, page_map, page_unmap, unmap_free_loop, page_rounds,
  free_tables, kfree_page,
}

-- `struct simpleseg` and `struct shmseg`
pub data Contents : Type 0 where
  simple : (writable : Bool) → (start len : ℕ) → Contents
  shm : (len : ℕ) → (frames : List ℕ) → (owner : Ptr) → Contents

-- `struct segment`, `struct segment_map`, `mappedSegs` of the directories, and the page tables.
pub record Segments : Type 0 where
  pub paging : Paging
  pub mapped_segs : Ptr → Ptr
  pub map_live : Ptr → Bool
  pub map_seg : Ptr → Ptr
  pub map_pagedir : Ptr → Ptr
  pub map_start : Ptr → ℕ
  pub map_len : Ptr → ℕ
  pub map_next : Ptr → Ptr
  pub seg_live : Ptr → Bool
  pub contents : Ptr → Contents
  pub mappings : Ptr → ℕ

-- What an access to a block of memory needs: that it is live.
abbrev pub live : {A : Type 0} → Bool → Ran Segments A → Ran Segments A
live true r = r
live false r = failed

-- A command of the page tables alone.
abbrev pub in_paging : {A : Type 0} → Ran Paging A → Segments → Ran Segments A
in_paging (done a p) s = done a (record s { paging = p })
in_paging failed s = failed
in_paging exhausted s = exhausted

unfoldable pub make_segment : (fresh : Ptr) → Contents → Segments → Segments
make_segment fresh c s = record s {
  seg_live = update s.seg_live fresh true;
  contents = update s.contents fresh c;
  mappings = update s.mappings fresh 0;
}

-- `simpleseg_make`
unfoldable pub simpleseg_make :
    (fresh : Ptr) → (start len : ℕ) → (writable : Bool) → Segments → Segments
simpleseg_make fresh start len writable s = make_segment fresh (simple writable start len) s

-- `shmseg_make`
pub shmseg_make : (fresh : Ptr) → (len : ℕ) → (owner : Ptr) → Segments → Segments
shmseg_make fresh len owner s = make_segment fresh (shm len (replicate (len / 0x1000) 0) owner) s

-- `simpleseg_map` and `shmseg_map`: where the map starts, and its length
unfoldable pub bounds : Contents → (offset : ℕ) → ℕ × ℕ
bounds (simple writable start len) offset = (start, len)
bounds (shm len frames owner) offset = (offset, len)

-- `seg_map`
unfoldable pub seg_map : (fresh seg pd : Ptr) → (offset : ℕ) → Action Segments Ptr
seg_map fresh seg pd offset s =
    let (start, len) = bounds (s.contents seg) offset in
    live (s.seg_live seg) (
      done fresh (record s {
        map_live = update s.map_live fresh true;
        map_start = update s.map_start fresh start;
        map_len = update s.map_len fresh len;
        mappings = update s.mappings seg (add32 (s.mappings seg) 1);
        map_seg = update s.map_seg fresh seg;
        map_pagedir = update s.map_pagedir fresh pd;
        map_next = update s.map_next fresh (s.mapped_segs pd);
        mapped_segs = update s.mapped_segs pd fresh;
      }))

-- The loop of `shmseg_unmap`.
pub shm_unmap_loop : (fuel : ℕ) → (pd : Ptr) → (start i len : ℕ) → Paging → Ran Paging (Unit {0})
shm_unmap_loop zero pd start i len s = if ltb i len then exhausted else done tt s
shm_unmap_loop (suc fuel) pd start i len s =
    if ltb i len
    then shm_unmap_loop fuel pd start (add32 i 0x1000) len
        (page_unmap (find_page pd (add32 start i) s) s)
    else done tt s

-- `simpleseg_unmap` and `shmseg_unmap`
pub unmap_pages : Contents → (pd : Ptr) → (start len : ℕ) → Paging → Ran Paging (Unit {0})
unmap_pages (simple writable _ _) pd start len s =
    unmap_free_loop page_rounds pd start (add32 start len) s
unmap_pages (shm _ frames owner) pd start len s = shm_unmap_loop page_rounds pd start 0 len s

-- The loop of `shmseg_delete`.
pub free_frames : List ℕ → Bitset → Option Bitset
free_frames [] t = some t
free_frames (f ∷ fs) t =
    if f == 0
    then free_frames fs t
    else elim (frame_free f t) [ none ↦ none | some u ↦ free_frames fs u ]

abbrev pub with_frames : Paging → Option Bitset → Ran Paging (Unit {0})
with_frames s none = failed
with_frames s (some t) = done tt (record s { frames = t })

-- `simpleseg_delete` and `shmseg_delete`
pub delete_contents : Contents → Paging → Ran Paging (Unit {0})
delete_contents (simple writable start len) s = done tt s
delete_contents (shm len frames owner) s = with_frames s (free_frames frames s.frames)

-- The loop of `seg_unmap` behind a map `m` of the directory.
pub unlink_loop : (fuel : ℕ) → (map m : Ptr) → Action Segments (Unit {0})
unlink_loop zero map m s = exhausted
unlink_loop (suc fuel) map m s =
    let n = s.map_next m in
    let rest = unlink_loop fuel map n s in
    live (s.map_live m) (
      if n == null
      then done tt s
      else if n == map
      then done tt (record s { map_next = update s.map_next m (s.map_next map) })
      else rest)

-- The map leaves the list of its directory.
pub unlink : (fuel : ℕ) → (map : Ptr) → Action Segments (Unit {0})
unlink fuel map s =
    let pd = s.map_pagedir map in
    if s.mapped_segs pd == map
    then done tt (record s { mapped_segs = update s.mapped_segs pd (s.map_next map) })
    else unlink_loop fuel map (s.mapped_segs pd) s

-- The segment loses a map, and goes with its last.
pub drop_mapping : (seg : Ptr) → Action Segments (Unit {0})
drop_mapping seg s =
    let left = sub32 (s.mappings seg) 1 in
    let t : Segments = record s { mappings = update s.mappings seg left } in
    live (s.seg_live seg) (
      if left == 0
      then (in_paging (delete_contents (s.contents seg) s.paging) >> λ u.
            done tt (record u { seg_live = update u.seg_live seg false }))
          t
      else done tt t)

-- `seg_unmap`, with the rounds for the walk over the maps of the directory
pub seg_unmap : (fuel : ℕ) → (map : Ptr) → Action Segments (Unit {0})
seg_unmap fuel map s =
    let seg = s.map_seg map in
    live (s.map_live map) (
      live (s.seg_live seg) (
        (in_paging (
              unmap_pages (s.contents seg) (s.map_pagedir map) (s.map_start map) (s.map_len map)
                s.paging)
            >> unlink fuel map
            >> drop_mapping seg
            >> λ u. done tt (record u { map_live = update u.map_live map false }))
          s))
