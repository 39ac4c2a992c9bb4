-- ===== src/Kernel/Process/Heapseg/Covers.antt =====
-- What the kernel records as the heap of a process after `process_setheapseg`.
use grapes.Prelude.{
  ℕ, ◌+◌, ◌-◌, ◌%◌, ◌≡◌, ◌≢◌, refl, sym, ap, ◌<◌, ◌≤◌, ◌⊎◌, inl, inr, Bool, true, false, ◌||◌, ltb,
  leb, ◌==◌, arith, Bool-cases,
}
use mathlib.Core.Path.{subst}
use grapes.Prelude.Pointers.{Ptr, null, update}
use grapes.Prelude.Runs.{done}
use grapes.Word.{add32, sub32, page_up}
use grapes.Kernel.Paging.{Paging, page_rounds}
use grapes.Kernel.Paging.View.{Apart, Separate, user_end}
use grapes.Kernel.Paging.Range.{Covers, Released, empty-Released, unmap_free_loop-Released}
use grapes.Kernel.Segments.{simple, Segments}
use grapes.Kernel.Segments.Shared.{minus, is_shm, set_len, resized, simpleseg_resize}
use grapes.Kernel.Segments.Created.{seg_map-simpleseg_make}
use grapes.Kernel.Process.{Machine}
use grapes.Kernel.Process.Heapseg.{make_heap, process_setheapseg}

-- The map is live and of a simple segment that is live.
pub record SimpleMap (map : Ptr) (w : Bool) (start len : ℕ) (s : Segments) : Type 0 where
  pub something : map ≢ null
  pub map_lives : s.map_live map ≡ true
  pub seg_lives : s.seg_live (s.map_seg map) ≡ true
  pub contents : s.contents (s.map_seg map) ≡ simple w start len
  pub first : s.map_start map ≡ start
  pub size : s.map_len map ≡ len

-- What rounding up to pages does to a length below a page boundary.
page_up_lem :
    (start len : ℕ)
    → start % 0x1000 ≡ 0
    → start + len ≤ user_end
    → let n = page_up len in
      (n % 0x1000 ≡ 0) × (len ≤ n) × (n < len + 0x1000) × (start + n ≤ user_end)
page_up_lem start len aligned low = (ground arith, ground arith, ground arith, ground arith)

-- The two writes at the end of `simpleseg_resize`.
resized_lem :
    (map : Ptr) (w : Bool) (start old n : ℕ) (s : Segments)
    → SimpleMap map w start old s
    → (t : Segments) × (resized map n s ≡ done 0 t)
      × SimpleMap map w start n t
      × (t.paging ≡ s.paging)
resized_lem map w start old n s m =
    let seg = s.map_seg map in
    (
      record s {
        map_len = update s.map_len map n;
        contents = update s.contents seg (set_len (s.contents seg) n);
      },
      refl,
      record {
        something = m.something;
        map_lives = m.map_lives;
        seg_lives = m.seg_lives;
        contents = rw m.contents (ground arith);
        first = m.first;
        size = ground arith;
      },
      refl,
    )

-- `simpleseg_resize` of a map of a simple segment in user memory that starts with a page, to a
-- length that, rounded up to pages, ends in user memory: map and segment get the rounded length, and
-- what is cut off is released.
simpleseg_resize_lem :
    (map : Ptr) (w : Bool) (start old len : ℕ) (s : Segments)
    → SimpleMap map w start old s
    → Separate s.paging
    → Covers s.paging
    → start % 0x1000 ≡ 0
    → start + old ≤ user_end
    → start + len ≤ user_end
    → let n = page_up len in
      (t : Segments) × (simpleseg_resize map len s ≡ done 0 t)
      × SimpleMap map w start n t
      × (n % 0x1000 ≡ 0)
      × (len ≤ n)
      × (n < len + 0x1000)
      × (start + n ≤ user_end)
      × Released (s.map_pagedir map) (start + n) (start + old) s.paging t.paging
unfolding simpleseg_resize
simpleseg_resize_lem map w start old len s m sep covers aligned low low' =
    let n = page_up len in
    let pd = s.map_pagedir map in
    let (whole, ge, lt, inside) = page_up_lem start len aligned low' in
    let is_simple : is_shm (s.contents (s.map_seg map)) ≡ false = ap is_shm m.contents in
    let not_null : (map == null) ≡ false = ground (arith, m.something) in
    elim (Bool-cases (ltb n old)) [
      | inl less ↦
          let (p, run, freed) =
            unmap_free_loop-Released page_rounds pd (start + n) (start + old) s.paging sep covers
              (omega arith) low (omega (arith, low)) in
          let first : add32 start n ≡ start + n = omega arith in
          let stop : add32 start old ≡ start + old = omega arith in
          let (t, run', m', same) =
            resized_lem map w start old n (record s { paging = p }) (at_paging p) in
          (
            t,
            rw
                (
                  not_null, m.map_lives, m.seg_lives, is_simple, m.first, m.size, less, first, stop,
                  run,
                )
                run',
            m',
            whole,
            ge,
            lt,
            inside,
            rw same freed,
          )
      | inr not_less ↦ elim (Bool-cases (ltb old n)) [
        | inl more ↦
            let (t, run', m', same) = resized_lem map w start old n s m in
            (
              t,
              rw (not_null, m.map_lives, m.seg_lives, is_simple, m.size, not_less, more) run',
              m',
              whole,
              ge,
              lt,
              inside,
              rw same (
                  empty-Released pd (start + n) (start + old) s.paging (omega arith)
                    (ground (arith, more))),
            )
        | inr same ↦
            let is_n : old ≡ n = ground (arith, not_less, same) in
            (
              s,
              rw (not_null, m.map_lives, m.seg_lives, is_simple, m.size, not_less, same) refl,
              subst (λ x. SimpleMap map w start x s) is_n m,
              whole,
              ge,
              lt,
              inside,
              (empty-Released pd (start + n) (start + old) s.paging (omega arith) (omega arith)),
            )
      ]
    ]
  where
    at_paging : (p : Paging) → SimpleMap map w start old (record s { paging = p })
    at_paging p = record {
      something = m.something;
      map_lives = m.map_lives;
      seg_lives = m.seg_lives;
      contents = m.contents;
      first = m.first;
      size = m.size;
    }

-- The heap of a process, if it has one, is the map of a simple segment from `start` on, of user
-- memory; page tables stand apart, and frames lie within the bit set.
abbrev pub HasHeap : (p : Ptr) → (start old : ℕ) → Machine → Type 0
HasHeap p start old s =
    Separate s.segments.paging
    × Covers s.segments.paging
    × ((s.heapseg p ≡ null)
        ⊎ (SimpleMap (s.heapseg p) true start old s.segments × (start + old ≤ user_end)))

-- Pages that are released have no frame, and the others have theirs.
Released-Covers :
    (pd : Ptr) (start stop : ℕ) (s t : Paging)
    → Released pd start stop s t
    → Separate s
    → Covers s
    → Separate t × Covers t
Released-Covers pd start stop s t r sep covers = (
  subst (λ f. Apart f) (sym r.tables) sep,
  λ p b. ground (arith, r.entries p b, r.size, covers p b),
)

make_heap_lem :
    (seg map p : Ptr) (start len : ℕ) (s : Machine)
    → seg ≢ null
    → map ≢ null
    → (u : Machine) × (make_heap seg map p start len s ≡ done 0 u)
      × (u.heapseg p ≡ map)
      × SimpleMap map true start len u.segments
      × (u.segments.paging ≡ s.segments.paging)
unfolding make_heap
make_heap_lem seg map p start len s some_seg some_map =
    let (g, run, created) = seg_map-simpleseg_make seg map (s.pagedir p) start len s.segments in
    let has_seg : (seg == null) ≡ false = ground (arith, some_seg) in
    let has_map : (map == null) ≡ false = ground (arith, some_map) in
    let is_seg = created.segment.0 in
    (
      record s { segments = g; heapseg = update s.heapseg p map },
      rw (has_seg, run, has_map) refl,
      ground arith,
      record {
        something = some_map;
        map_lives = rw created.lives (ground arith);
        seg_lives = rw is_seg created.segment.2;
        contents = rw is_seg created.contents;
        first = created.place.0;
        size = created.place.1;
      },
      created.paging,
    )

-- `process_setheapseg` for a range of user memory that starts with a page, in a process that has no
-- heap or one that starts at the same address: the heap is then a map from that address on which
-- covers the range, and less than a page more.
pub process_setheapseg_lem :
    (fuel : ℕ) (seg map p : Ptr) (start stop old : ℕ) (s : Machine)
    → seg ≢ null
    → map ≢ null
    → start % 0x1000 ≡ 0
    → start ≤ stop
    → stop < user_end
    → HasHeap p start old s
    → (u : Machine) × (len : ℕ) × (process_setheapseg fuel seg map p start stop s ≡ done 0 u)
      × SimpleMap (u.heapseg p) true start len u.segments
      × (stop ≤ start + len)
      × (start + len < stop + 0x1000)
      × HasHeap p start len u
unfolding process_setheapseg
process_setheapseg_lem fuel seg map p start stop old s some_seg some_map aligned le low
      (sep, covers, heap) =
    let allowed : leb 0xE0000000 start || leb 0xE0000000 stop ≡ false = ground arith in
    let len : sub32 stop start ≡ stop - start = omega arith in
    elim heap [
      | inl none_yet ↦
          let (u, run, is_map, m, same) =
            make_heap_lem seg map p start (stop - start) s some_seg some_map in
          let m' : SimpleMap (u.heapseg p) true start (stop - start) u.segments = rw is_map m in
          (
            u,
            stop - start,
            rw (allowed, none_yet, len) run,
            m',
            omega arith,
            omega arith,
            (rw same sep, rw same covers, inr (m', omega arith)),
          )
      | inr (m, inside) ↦
          let has_heap : (s.heapseg p == null) ≡ false = ground (arith, m.something) in
          let (g, run, m', whole, ge, lt, fits, freed) =
            simpleseg_resize_lem (s.heapseg p) true start old (stop - start) s.segments m sep covers
              aligned inside (omega arith) in
          let same_start : (s.segments.map_start (s.heapseg p) == start) ≡ true =
            ground (arith, m.first) in
          let run' : simpleseg_resize (s.heapseg p) (sub32 stop start) s.segments ≡ done 0 g =
            subst (λ x. simpleseg_resize (s.heapseg p) x s.segments ≡ done 0 g) (sym len) run in
          let (sep', covers') =
            Released-Covers (s.segments.map_pagedir (s.heapseg p)) (start + page_up (stop - start))
              (start + old) s.segments.paging g.paging freed sep covers in
          (
            record s { segments = g },
            page_up (stop - start),
            rw (allowed, has_heap, same_start, run') refl,
            m',
            omega (arith, ge),
            omega (arith, lt),
            (sep', covers', inr (m', fits)),
          )
    ]

-- A range that does not end in user memory is refused.
pub process_setheapseg-refused :
    (fuel : ℕ) (seg map p : Ptr) (start stop : ℕ) (s : Machine)
    → user_end ≤ stop
    → process_setheapseg fuel seg map p start stop s ≡ done (minus 1) s
unfolding process_setheapseg
process_setheapseg-refused fuel seg map p start stop s high =
    let refused : leb 0xE0000000 start || leb 0xE0000000 stop ≡ true = ground arith in
    rw refused refl
