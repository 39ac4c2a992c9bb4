-- ===== src/Kernel/Segments/Shared/Create.antt =====
-- What `shm_create` accepts, and what is found and deleted afterwards.
use grapes.Prelude.{
  ℕ, suc, ◌+◌, ◌/◌, ◌≡◌, ◌≢◌, refl, ◌<◌, ◌⊎◌, inl, inr, Bool, true, false, ◌&&◌, ltb, arith,
  Bool-cases, replicate,
}
use grapes.Prelude.Pointers.{Ptr, null, update}
use grapes.Prelude.Runs.{done}
use grapes.Word.{u32, add32}
use grapes.Kernel.Segments.{shm, Segments, make_segment, shmseg_make, bounds, seg_map}
use grapes.Kernel.Segments.Shared.{minus, get_by_off_loop, shmseg_get_by_off, shm_create}

-- the block lies in user memory and is not too long
abbrev pub fits : (offset len : ℕ) → Bool
fits offset len = ltb (offset + len) 0xE0000000 && ltb len 0x10000000

-- The current process has the map `map` of the new segment `seg`.
pub record Shared (seg map process pd : Ptr) (offset len : ℕ) (s t : Segments) : Type 0 where
  pub head : t.mapped_segs pd ≡ map
  pub behind : t.map_next map ≡ s.mapped_segs pd
  pub place : (t.map_start map ≡ offset) × (t.map_len map ≡ len) × (t.map_pagedir map ≡ pd)
  pub segment : (t.map_seg map ≡ seg) × (t.mappings seg ≡ 1) × (t.seg_live seg ≡ true)
  pub contents : t.contents seg ≡ shm len (replicate (len / 0x1000) 0) process
  pub paging : t.paging ≡ s.paging

-- For every offset and length: `shm_create` refuses a block that does not end in user memory or has
-- 0x10000000 bytes or more, and changes nothing; the sum that it tests does not wrap around. For any
-- other block it makes and maps a segment without frames, which is then found at its offset.
pub shm_create_lem :
    (seg map process pd : Ptr) (offset len : ℕ) (s : Segments)
    → map ≢ null
    → offset < u32
    → len < u32
    → let run = shm_create seg map process pd offset len s in
      ((fits offset len ≡ false) × (run ≡ done (minus 1) s))
      ⊎ ((fits offset len ≡ true)
          × (t : Segments) × (run ≡ done 0 t)
          × Shared seg map process pd offset len s t
          × ((fuel : ℕ) → shmseg_get_by_off (suc fuel) pd offset t ≡ done map t))
unfolding shm_create seg_map shmseg_make make_segment bounds shmseg_get_by_off get_by_off_loop
shm_create_lem seg map process pd offset len s ne lo ll = elim (Bool-cases (fits offset len)) [
  | inr refused ↦ inl (refused, ground arith)
  | inl ok ↦ inr (
    ok,
    created,
    ground arith,
    record {
      head = ground arith;
      behind = ground arith;
      place = (ground arith, ground arith, ground arith);
      segment = (ground arith, ground arith, ground arith);
      contents = ground arith;
      paging = refl;
    },
    λ fuel. ground arith,
  )
]
  where
    created : Segments
    created =
        let m = shmseg_make seg len process s in
        record m {
          map_live = update m.map_live map true;
          map_start = update m.map_start map offset;
          map_len = update m.map_len map len;
          mappings = update m.mappings seg (add32 (m.mappings seg) 1);
          map_seg = update m.map_seg map seg;
          map_pagedir = update m.map_pagedir map pd;
          map_next = update m.map_next map (m.mapped_segs pd);
          mapped_segs = update m.mapped_segs pd map;
        }
