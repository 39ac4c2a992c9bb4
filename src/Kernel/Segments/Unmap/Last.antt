-- ===== src/Kernel/Segments/Unmap/Last.antt =====
-- `seg_unmap` of a simple and of a shared segment.
use grapes.Prelude.{
  ℕ, ◌+◌, ◌%◌, ◌≡◌, refl, sym, ap, ◌∙◌, ◌<◌, ◌≤◌, inl, inr, Bool, true, ◌&&◌, not, List, ◌==◌,
  if◌then◌else◌, length, arith, Bool-cases,
}
use mathlib.Core.Path.{subst}
use grapes.Prelude.Pointers.{Ptr, has, Chain, Distinct}
use grapes.Prelude.Runs.{done}
use grapes.Word.{u32, add32}
use grapes.Kernel.Frames.Update.{bit_in}
use grapes.Kernel.Paging.{Paging, unmap_free_loop, page_rounds}
use grapes.Kernel.Paging.View.{entry, Separate, user_end}
use grapes.Kernel.Paging.Range.{Covers, Released, cleared, in_range, unmap_free_loop-Released}
use grapes.Kernel.Segments.{simple, shm, Segments, unmap_pages, delete_contents, seg_unmap}
use grapes.Kernel.Segments.Unmap.{AllLive, Detached, seg_unmap_lem}
use grapes.Kernel.Segments.Unmap.Shm.{shm_unmap_loop-Forgotten, AllCovered, free_frames_lem}

-- The map is one of the list `ms` of its directory, and covers whole pages of user memory.
pub record Attached (map : Ptr) (ms : List Ptr) (s : Segments) : Type 0 where
  pub chain : Chain s.map_next (s.mapped_segs (s.map_pagedir map)) ms
  pub apart : Distinct ms
  pub alive : AllLive s ms
  pub there : has map ms ≡ true
  pub map_lives : s.map_live map ≡ true
  pub seg_lives : s.seg_live (s.map_seg map) ≡ true
  pub counted : 0 < s.mappings (s.map_seg map)
  pub few : s.mappings (s.map_seg map) < u32
  pub tables : Separate s.paging
  pub aligned : s.map_start map % 0x1000 ≡ 0
  pub low : s.map_start map + s.map_len map ≤ user_end

-- A map of a simple segment: it leaves the list of its directory and no other list changes, its
-- segment counts one map less and goes with the last, and the pages of the map are cleared and their
-- frames are free.
pub seg_unmap-simple :
    (fuel : ℕ) (map : Ptr) (ms : List Ptr) (s : Segments) (w : Bool) (start len : ℕ)
    → Attached map ms s
    → length ms ≤ fuel
    → s.contents (s.map_seg map) ≡ simple w start len
    → Covers s.paging
    → (t : Segments) × (seg_unmap fuel map s ≡ done tt t)
      × Detached map ms s t
      × Released
          (s.map_pagedir map)
          (s.map_start map)
          (s.map_start map + s.map_len map)
          s.paging
          t.paging
unfolding unmap_pages delete_contents
seg_unmap-simple fuel map ms s w start len h enough is_simple covers =
    let begin = s.map_start map in
    let length_ = s.map_len map in
    let (p, run, freed) =
      unmap_free_loop-Released page_rounds (s.map_pagedir map) begin (begin + length_) s.paging
        h.tables covers h.aligned h.low (omega (arith, h.low)) in
    let stop : add32 begin length_ ≡ begin + length_ = omega (arith, h.low) in
    let (t, ok, is_p, gone) =
      seg_unmap_lem fuel map ms s p p h.chain h.apart h.alive h.there enough h.map_lives h.seg_lives
        h.counted h.few
        (rw is_simple (
          subst (λ x. unmap_free_loop page_rounds (s.map_pagedir map) begin x s.paging ≡ done tt p)
            (sym stop) run))
        (rw is_simple (ground arith)) in
    (
      t,
      ok,
      gone,
      subst (Released (s.map_pagedir map) begin (begin + length_) s.paging) (sym is_p) freed,
    )

-- The frames of a shared segment that has `n` maps, when it loses one.
delete_if :
    (n len : ℕ) (frames : List ℕ) (owner : Ptr) (p : Paging)
    → AllCovered frames p.frames
    → (p' : Paging) × ((if n == 1 then delete_contents (shm len frames owner) p else done tt p)
        ≡ done tt p')
      × ((q : Ptr) (b : ℕ) → entry q b p' ≡ entry q b p)
      × ((m : ℕ)
          → bit_in p'.frames.bits m
            ≡ (if (n == 1) && has m frames && not (m == 0) then 0 else bit_in p.frames.bits m))
unfolding delete_contents
delete_if n len frames owner p covered = elim (Bool-cases (n == 1)) [
  | inl last ↦
      let (t, run, bits) = free_frames_lem frames p.frames covered in
      (record p { frames = t }, rw (last, run) refl, λ q b. refl, λ m. rw last (bits m))
  | inr more ↦ (p, rw more refl, λ q b. refl, λ m. rw more refl)
]

-- What becomes of the frames of a shared segment when it loses one of its maps: they are freed with
-- the last.
pub seg_unmap-shm :
    (fuel : ℕ) (map : Ptr) (ms : List Ptr) (s : Segments) (len : ℕ) (frames : List ℕ) (owner : Ptr)
    → Attached map ms s
    → length ms ≤ fuel
    → s.contents (s.map_seg map) ≡ shm len frames owner
    → AllCovered frames s.paging.frames
    → (t : Segments) × (seg_unmap fuel map s ≡ done tt t)
      × Detached map ms s t
      × ((p : Ptr) (b : ℕ)
          → entry p b t.paging ≡ (
              if (s.map_pagedir map == p)
                && in_range (s.map_start map) (s.map_start map + s.map_len map) b
              then cleared (entry p b s.paging)
              else entry p b s.paging))
      × ((m : ℕ)
          → bit_in t.paging.frames.bits m ≡ (
              if (s.mappings (s.map_seg map) == 1) && has m frames && not (m == 0)
              then 0
              else bit_in s.paging.frames.bits m))
unfolding unmap_pages
seg_unmap-shm fuel map ms s len frames owner h enough is_shm covered =
    let seg = s.map_seg map in
    let pd = s.map_pagedir map in
    let begin = s.map_start map in
    let length_ = s.map_len map in
    let (p, run, forgotten) =
      shm_unmap_loop-Forgotten page_rounds pd begin 0 length_ s.paging h.tables
        (omega (arith, h.aligned)) h.low (omega (arith, h.low)) in
    let first : begin + 0 ≡ begin = omega arith in
    let (p', run', pages, bits) =
      delete_if (s.mappings seg) len frames owner p
        (subst (AllCovered frames) (sym forgotten.frames) covered) in
    let (t, ok, is_p', gone) =
      seg_unmap_lem fuel map ms s p p' h.chain h.apart h.alive h.there enough h.map_lives
        h.seg_lives h.counted h.few (rw is_shm run) (rw is_shm run') in
    (
      t,
      ok,
      gone,
      λ q b.
          ap (entry q b) is_p'
          ∙ pages q b
          ∙ subst
              (λ x. entry q b p ≡ (
                if (pd == q) && in_range x (begin + length_) b
                then cleared (entry q b s.paging)
                else entry q b s.paging))
              first (forgotten.entries q b),
      λ m.
          ap (λ x. bit_in x.frames.bits m) is_p'
          ∙ bits m
          ∙ ap
              (λ x.
                if (s.mappings seg == 1) && has m frames && not (m == 0)
                then 0
                else bit_in x.bits m)
              forgotten.frames,
    )
