-- ===== src/Kernel/Segments/Unmap.antt =====
-- A map leaves the list of its directory and its segment.
pub mod Shm
pub mod Last
use grapes.Prelude.{
  ℕ, zero, suc, ◌+◌, ◌-◌, ◌*◌, ◌/◌, ◌%◌, ◌^◌, ◌≡◌, ◌≢◌, refl, sym, ap, ◌∙◌, ◌<◌, ◌≤◌, ◌⊎◌, inl, inr,
  Bool, true, false, ◌&&◌, ◌||◌, not, Option, none, some, List, [], ◌∷◌, ltb, leb, ◌==◌,
  if◌then◌else◌, length, arith, Bool-cases,
}
use mathlib.Core.Path.{subst}
use grapes.Prelude.Pointers.{Ptr, null, update, has, Chain, Distinct, Chain-update, remove}
use grapes.Prelude.Runs.{Ran, done, failed, exhausted, Action, return, ◌>>=◌, ◌>>◌, next, done-same}
use grapes.Word.{u32, add32, sub32}
use grapes.Kernel.Paging.{Paging}
use grapes.Kernel.Segments.{
  Contents, Segments, live, in_paging, unmap_pages, delete_contents, unlink_loop, unlink,
  drop_mapping, seg_unmap,
}

-- All maps of a list are live.
abbrev pub AllLive : Segments → List Ptr → Type 0
AllLive s [] = Unit
AllLive s (m ∷ ms) = (s.map_live m ≡ true) × AllLive s ms

unlink_loop_lem :
    (fuel : ℕ) (map m : Ptr) (ms : List Ptr) (s : Segments)
    → Chain s.map_next (s.map_next m) ms
    → Distinct (m ∷ ms)
    → AllLive s (m ∷ ms)
    → has map ms ≡ true
    → length ms ≤ fuel
    → (links : Ptr → Ptr) × (unlink_loop fuel map m s ≡ done tt (record s { map_next = links }))
      × Chain links (links m) (remove map ms)
      × ((q : Ptr) → has q (m ∷ ms) ≡ false → links q ≡ s.map_next q)
unfolding unlink_loop
unlink_loop_lem fuel map m [] s chain apart alive there enough = absurd (cc)
unlink_loop_lem zero map m (n ∷ ms) s chain apart alive there enough = absurd (omega arith)
unlink_loop_lem (suc fuel) map m (n ∷ ms) s (is_n, ne, chain) (out, apart) (lm, alive) there
      enough =
    let not_null : (n == null) ≡ false = ground (arith, ne) in
    elim (Bool-cases (n == map)) [
      | inl here ↦
          let is_map : n ≡ map = ground (arith, here) in
          (
            update s.map_next m (s.map_next map),
            rw (lm, is_n, not_null, here) refl,
            rw here (
                subst (λ x. Chain (update s.map_next m (s.map_next map)) x ms)
                  (ground (arith, is_map))
                  (Chain-update s.map_next (s.map_next n) m (s.map_next map) ms (ground arith)
                    chain)),
            λ q o. ground arith,
          )
      | inr later ↦
          let (links, run, chain', same) =
            unlink_loop_lem fuel map n ms s chain apart alive (ground (arith, later, there))
              (omega arith) in
          (
            links,
            rw (is_n, lm, not_null, later) run,
            rw later (same m out ∙ is_n, ne, chain'),
            λ q o. same q (ground arith),
          )
    ]

-- The maps of a directory without `map`; what is linked to none of them stays.
unlink_lem :
    (fuel : ℕ) (map : Ptr) (ms : List Ptr) (s : Segments)
    → let pd = s.map_pagedir map in
      Chain s.map_next (s.mapped_segs pd) ms
      → Distinct ms
      → AllLive s ms
      → has map ms ≡ true
      → length ms ≤ fuel
      → (links heads : Ptr → Ptr) × (unlink fuel map s
          ≡ done tt (record s { map_next = links; mapped_segs = heads }))
        × Chain links (heads pd) (remove map ms)
        × ((q : Ptr) → has q ms ≡ false → links q ≡ s.map_next q)
        × ((p : Ptr) → p ≢ pd → heads p ≡ s.mapped_segs p)
unfolding unlink
unlink_lem fuel map [] s chain apart alive there enough = absurd (cc)
unlink_lem fuel map (m ∷ ms) s (is_m, ne, chain) apart alive there enough =
    let pd = s.map_pagedir map in
    elim (Bool-cases (m == map)) [
      | inl here ↦
          let is_map : m ≡ map = ground (arith, here) in
          (
            s.map_next,
            update s.mapped_segs pd (s.map_next map),
            rw (is_m, here) refl,
            rw here (subst (λ x. Chain s.map_next x ms) (ground (arith, is_map)) chain),
            λ q o. refl,
            λ p other. ground arith,
          )
      | inr later ↦
          let (links, run, chain', same) =
            unlink_loop_lem fuel map m ms s chain apart alive (ground (arith, later, there))
              (omega arith) in
          (
            links,
            s.mapped_segs,
            rw (is_m, later) run,
            rw later (is_m, ne, chain'),
            same,
            λ p other. refl,
          )
    ]

-- The segment with a map less; it goes, with its contents, if that was its last.
abbrev dropped : (seg : Ptr) → Paging → Segments → Segments
dropped seg p s = record s {
  paging = p;
  mappings = update s.mappings seg (s.mappings seg - 1);
  seg_live = if s.mappings seg == 1 then update s.seg_live seg false else s.seg_live;
}

drop_mapping_lem :
    (seg : Ptr) (s : Segments) (p : Paging)
    → s.seg_live seg ≡ true
    → 0 < s.mappings seg
    → s.mappings seg < u32
    → (if s.mappings seg == 1 then delete_contents (s.contents seg) s.paging else done tt s.paging)
      ≡ done tt p
    → drop_mapping seg s ≡ done tt (dropped seg p s)
unfolding drop_mapping
drop_mapping_lem seg s p sl some_map few deleted =
    let left : sub32 (s.mappings seg) 1 ≡ s.mappings seg - 1 = omega arith in
    elim (Bool-cases (s.mappings seg == 1)) [
      | inl last ↦
          let none_left : (s.mappings seg - 1 == 0) ≡ true = ground (arith, last) in
          let run : delete_contents (s.contents seg) s.paging ≡ done tt p =
            subst
              (λ b.
                (if b then delete_contents (s.contents seg) s.paging else done tt s.paging)
                ≡ done tt p)
              last deleted in
          rw (sl, left, none_left, last, run) refl
      | inr more ↦
          let some_left : (s.mappings seg - 1 == 0) ≡ false = ground (arith, more, some_map) in
          let same : s.paging ≡ p =
            (done-same (
              subst
                (λ b.
                  (if b then delete_contents (s.contents seg) s.paging else done tt s.paging)
                  ≡ done tt p)
                more deleted)).1 in
          rw (sl, left, some_left, more, ← same) refl
    ]

-- The state after `seg_unmap` of a map of `seg`, whose directory had the maps `ms`.
pub record Detached (map : Ptr) (ms : List Ptr) (s t : Segments) : Type 0 where
  pub chain : Chain t.map_next (t.mapped_segs (s.map_pagedir map)) (remove map ms)
  pub others : (q : Ptr) → has q ms ≡ false → t.map_next q ≡ s.map_next q
  pub heads : (p : Ptr) → p ≢ s.map_pagedir map → t.mapped_segs p ≡ s.mapped_segs p
  pub lives : t.map_live ≡ update s.map_live map false
  pub count : t.mappings ≡ update s.mappings (s.map_seg map) (s.mappings (s.map_seg map) - 1)
  pub segments : t.seg_live ≡ (
      if s.mappings (s.map_seg map) == 1
      then update s.seg_live (s.map_seg map) false
      else s.seg_live)

pub seg_unmap_lem :
    (fuel : ℕ) (map : Ptr) (ms : List Ptr) (s : Segments) (p p' : Paging)
    → let pd = s.map_pagedir map in
      let seg = s.map_seg map in
      Chain s.map_next (s.mapped_segs pd) ms
      → Distinct ms
      → AllLive s ms
      → has map ms ≡ true
      → length ms ≤ fuel
      → s.map_live map ≡ true
      → s.seg_live seg ≡ true
      → 0 < s.mappings seg
      → s.mappings seg < u32
      → unmap_pages (s.contents seg) pd (s.map_start map) (s.map_len map) s.paging ≡ done tt p
      → (if s.mappings seg == 1 then delete_contents (s.contents seg) p else done tt p) ≡ done tt p'
      → (t : Segments) × (seg_unmap fuel map s ≡ done tt t) × (t.paging ≡ p') × Detached map ms s t
unfolding seg_unmap
seg_unmap_lem fuel map ms s p p' chain apart alive there enough ml sl some_map few pages deleted =
    let (links, heads, run, chain', same, same') =
      unlink_lem fuel map ms (record s { paging = p }) chain apart alive there enough in
    let seg = s.map_seg map in
    let u : Segments = record s { paging = p; map_next = links; mapped_segs = heads } in
    (
      record (dropped seg p' u) { map_live = update s.map_live map false },
      rw (ml, sl, pages, run, drop_mapping_lem seg u p' sl some_map few deleted) refl,
      refl,
      record {
        chain = chain';
        others = same;
        heads = same';
        lives = refl;
        count = refl;
        segments = refl;
      },
    )
