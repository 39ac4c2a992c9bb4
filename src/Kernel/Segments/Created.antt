-- ===== src/Kernel/Segments/Created.antt =====
-- A simple segment that is made and mapped at once, as heaps and user stacks are.
use grapes.Prelude.{ℕ, ◌≡◌, refl, true, arith}
use grapes.Prelude.Pointers.{Ptr, update}
use grapes.Prelude.Runs.{done}
use grapes.Word.{add32}
use grapes.Kernel.Segments.{simple, Segments, bounds, make_segment, simpleseg_make, seg_map}

-- The directory `pd` has the map `map` of the new segment `seg` in front of its others.
pub record Created (seg map pd : Ptr) (start len : ℕ) (s t : Segments) : Type 0 where
  pub heads : t.mapped_segs ≡ update s.mapped_segs pd map
  pub links : t.map_next ≡ update s.map_next map (s.mapped_segs pd)
  pub place : (t.map_start map ≡ start) × (t.map_len map ≡ len) × (t.map_pagedir map ≡ pd)
  pub segment : (t.map_seg map ≡ seg) × (t.mappings seg ≡ 1) × (t.seg_live seg ≡ true)
  pub lives : t.map_live ≡ update s.map_live map true
  pub contents : t.contents seg ≡ simple true start len
  pub paging : t.paging ≡ s.paging

pub seg_map-simpleseg_make :
    (seg map pd : Ptr) (start len : ℕ) (s : Segments)
    → (t : Segments) × (seg_map map seg pd 0 (simpleseg_make seg start len true s) ≡ done map t)
      × Created seg map pd start len s t
unfolding simpleseg_make make_segment seg_map bounds
seg_map-simpleseg_make seg map pd start len s = (
  created,
  ground arith,
  record {
    heads = refl;
    links = refl;
    place = (ground arith, ground arith, ground arith);
    segment = (ground arith, ground arith, ground arith);
    lives = refl;
    contents = ground arith;
    paging = refl;
  },
)
  where
    created : Segments
    created =
        let m = simpleseg_make seg start len true s in
        record m {
          map_live = update m.map_live map true;
          map_start = update m.map_start map start;
          map_len = update m.map_len map len;
          mappings = update m.mappings seg (add32 (m.mappings seg) 1);
          map_seg = update m.map_seg map seg;
          map_pagedir = update m.map_pagedir map pd;
          map_next = update m.map_next map (m.mapped_segs pd);
          mapped_segs = update m.mapped_segs pd map;
        }
