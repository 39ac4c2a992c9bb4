-- ===== src/Kernel/Segments/Faults/Serve.antt =====
-- What a page fault in a segment leaves behind.
use grapes.Prelude.{
  ℕ, ◌*◌, ◌/◌, ◌%◌, ◌^◌, ◌≡◌, ◌≢◌, refl, sym, ap, ◌∙◌, ◌<◌, ◌≤◌, ◌⊎◌, inl, inr, Bool, true, false,
  ◌&&◌, ◌||◌, not, ◌==◌, if◌then◌else◌, length, arith, Bool-cases,
}
use mathlib.Core.Path.{subst}
use grapes.Prelude.Pointers.{Ptr, null}
use grapes.Prelude.Runs.{done, failed, Action}
use grapes.Word.{page_floor}
use grapes.Kernel.Frames.{Bitset, index}
use grapes.Kernel.Frames.Update.{bit_in, Words}
use grapes.Kernel.Frames.Alloc.{frame_alloc_lem}
use grapes.Kernel.Paging.{
  Page, Paging, Location, table_index, page_index, find_page, get_page, page_map, set_page,
}
use grapes.Kernel.Paging.View.{entry, Separate, user_end, same_page, entry-set_page}
use grapes.Kernel.Segments.Faults.{taken, map_new_frame, simple_fault}

-- The page of `a` becomes `page`, and no other page changes.
pub record Mapped (pd : Ptr) (a : ℕ) (page : Page) (s t : Paging) : Type 0 where
  pub entries :
      (p : Ptr) (b : ℕ) → entry p b t ≡ (if (pd == p) && same_page a b then page else entry p b s)
  pub apart : Separate t

-- a page of a user that is mapped to a frame
abbrev pub user_page : (frame : ℕ) → (rw : Bool) → Page
user_page frame rw = record { present = true; rw = rw; user = true; frame = frame }

-- Nothing is mapped at the address.
abbrev pub Vacant : Ptr → ℕ → Paging → Type 0
Vacant pd a s = ((entry pd a s).frame ≡ 0) × ((entry pd a s).present ≡ false)

-- The bit set is one that `frame_alloc` works on, and its frames fit the field of a page.
abbrev pub Room : Bitset → Type 0
Room t =
    Words t.bits
    × (index t.size ≤ length t.bits)
    × (length t.bits < 2 ^ 27)
    × (index t.size * 32 ≤ 2 ^ 20)

-- The page of `a` is mapped to a frame that was free, which is taken now.
pub record Fed (pd : Ptr) (a frame : ℕ) (w : Bool) (s t : Paging) : Type 0 where
  pub mapped : Mapped pd a (user_page frame w) s t
  pub fits : frame < 2 ^ 20
  pub was_free : bit_in s.frames.bits frame ≡ 0
  pub bits : (m : ℕ) → bit_in t.frames.bits m ≡ (if frame == m then 1 else bit_in s.frames.bits m)

abbrev pub AllTaken : Bitset → Type 0
AllTaken t = (m : ℕ) → m < index t.size * 32 → bit_in t.bits m ≡ 1

page_map-set_page :
    (pd : Ptr) (a frame : ℕ) (w : Bool) (s : Paging)
    → s.tables pd (table_index a) ≢ null
    → Vacant pd a s
    → frame < 2 ^ 20
    → page_map (find_page pd a s) frame true w s
      ≡ set_page (s.tables pd (table_index a)) (page_index a) (user_page frame w) s
unfolding find_page page_map
page_map-set_page pd a frame w s there (no_frame, absent) small =
    let fits : frame % 2 ^ 20 ≡ frame = omega arith in
    let some_table : (s.tables pd (table_index a) == null) ≡ false = ground (arith, there) in
    let page = s.pages (s.tables pd (table_index a)) (page_index a) in
    let is_entry : entry pd a s ≡ page = rw some_table refl in
    let no_frame' : page.frame ≡ 0 = subst (λ e. e.frame ≡ 0) is_entry no_frame in
    let absent' : page.present ≡ false = subst (λ e. e.present ≡ false) is_entry absent in
    rw (some_table, no_frame', absent', fits) refl

page_map-Mapped :
    (pd : Ptr) (a frame : ℕ) (w : Bool) (s : Paging)
    → Separate s
    → a < user_end
    → s.tables pd (table_index a) ≢ null
    → Vacant pd a s
    → frame < 2 ^ 20
    → Mapped pd a (user_page frame w) s (page_map (find_page pd a s) frame true w s)
page_map-Mapped pd a frame w s sep low there vacant small =
    subst (Mapped pd a (user_page frame w) s)
      (sym (page_map-set_page pd a frame w s there vacant small))
      (record {
        entries = λ p b. entry-set_page pd p a b (user_page frame w) s sep low there;
        apart = sep;
      })

floor_entry : (pd : Ptr) (a : ℕ) (s : Paging) → entry pd (page_floor a) s ≡ entry pd a s
floor_entry pd a s = let here : page_floor a / 0x1000 ≡ a / 0x1000 = omega arith in rw here refl

-- the page of an address does not depend on the free frames
find_page-frames :
    (pd : Ptr) (a : ℕ) (s : Paging) (left : Bitset)
    → find_page pd a s ≡ find_page pd a (record s { frames = left })
unfolding find_page
find_page-frames pd a s left = refl

taken-find_page :
    (pd : Ptr) (a : ℕ) (s : Paging)
    → s.tables pd (table_index a) ≢ null
    → taken (find_page pd a s) s ≡ not ((entry pd a s).frame == 0)
unfolding find_page
taken-find_page pd a s there =
    let some_table : (s.tables pd (table_index a) == null) ≡ false = ground (arith, there) in
    rw some_table refl

module _ (pd : Ptr) (a : ℕ) (s : Paging) (sep : Separate s) (low : a < user_end)
    (there : s.tables pd (table_index a) ≢ null) where
  abbrev pub page : Location
  page = find_page pd (page_floor a) s

  floor_there : s.tables pd (table_index (page_floor a)) ≢ null
  floor_there = let here : table_index (page_floor a) ≡ table_index a = omega arith in rw here there

  -- the page table is there, and nothing is made
  pub get_page-there :
      (kmalloc_page : Action Paging (ℕ × ℕ))
      → get_page kmalloc_page pd (page_floor a) s ≡ done page s
  unfolding get_page find_page
  get_page-there kmalloc_page =
      let some_table : (s.tables pd (table_index (page_floor a)) == null) ≡ false =
        ground (arith, floor_there) in
      rw some_table refl

  -- the test of the page that `pagedir_getPage` returns
  taken_iff : taken page s ≡ not ((entry pd a s).frame == 0)
  taken_iff =
      taken-find_page pd (page_floor a) s floor_there
      ∙ ap (λ e. not (e.frame == 0)) (floor_entry pd a s)

  pub placed :
      (frame : ℕ) (w : Bool) (left : Bitset)
      → Vacant pd a s
      → frame < 2 ^ 20
      → let u = page_map page frame true w (record s { frames = left }) in
        Mapped pd a (user_page frame w) s u × (u.frames ≡ left)
  placed frame w left vacant small =
      let t : Paging = record s { frames = left } in
      let vacant' : Vacant pd (page_floor a) t =
        subst (λ e. (e.frame ≡ 0) × (e.present ≡ false)) (sym (floor_entry pd a s)) vacant in
      let mapped =
        page_map-Mapped pd (page_floor a) frame w t sep (omega arith) floor_there vacant' small in
      let is_set = page_map-set_page pd (page_floor a) frame w t floor_there vacant' small in
      subst
        (λ x.
          let u = page_map x frame true w t in
          Mapped pd a (user_page frame w) s u × (u.frames ≡ left))
        (sym (find_page-frames pd (page_floor a) s left))
        (
          record {
            entries = λ p b. mapped.entries p b ∙ chosen p b (user_page frame w) (entry p b s);
            apart = mapped.apart;
          },
          ap (λ u. u.frames) is_set,
        )
    where
      chosen :
          (p b : ℕ) (v x : Page)
          → (if (pd == p) && same_page (page_floor a) b then v else x)
            ≡ (if (pd == p) && same_page a b then v else x)
      chosen p b v x = let here : page_floor a / 0x1000 ≡ a / 0x1000 = omega arith in rw here refl

  pub not_taken : Vacant pd a s → taken page s ≡ false
  not_taken (no_frame, _) = taken_iff ∙ ap (λ f. not (f == 0)) no_frame

  -- `page_map` with a new frame
  pub fed :
      (w : Bool)
      → Vacant pd a s
      → Room s.frames
      → (AllTaken s.frames × (map_new_frame page w s ≡ failed))
        ⊎ ((frame : ℕ) × (t : Paging) × (map_new_frame page w s ≡ done frame t)
            × Fed pd a frame w s t)
  unfolding map_new_frame
  fed w vacant (words, fit, few, room) = elim (frame_alloc_lem s.frames words fit few) [
    | inl (all, none_left) ↦ inl (all, rw (none_left, map_new_frame) refl)
    | inr (free, left, ok, small, clear, _, _, _, bits) ↦
        let (mapped, same) = placed free w left vacant (omega arith) in
        inr (
          free,
          page_map page free true w (record s { frames = left }),
          rw (ok, map_new_frame) refl,
          record {
            mapped = mapped;
            fits = omega arith;
            was_free = clear;
            bits =
                subst
                  (λ t.
                    (m : ℕ) → bit_in t.bits m ≡ (if free == m then 1 else bit_in s.frames.bits m))
                  (sym same) bits;
          },
        )
  ]

-- A fault in user memory, at an address whose page table is there already, with page tables that
-- stand apart and a page that is present exactly if it has a frame, in a simple segment. A write to a read-only segment and a fault at a present page
-- are refused, and change no page and no frame. Otherwise a frame that was free is mapped to the page
-- and to no other; with no frame free the call fails.
pub simple_fault_lem :
    (kmalloc_page : Action Paging (ℕ × ℕ)) (w : Bool) (pd : Ptr) (a : ℕ) (write : Bool) (s : Paging)
    → Separate s
    → s.tables pd (table_index a) ≢ null
    → a < user_end
    → Room s.frames
    → (entry pd a s).present ≡ not ((entry pd a s).frame == 0)
    → let run = simple_fault kmalloc_page w pd a write s in
      let refused = (write && not w) || (entry pd a s).present in
      ((refused ≡ true)
        × (t : Paging) × (run ≡ done 1 t)
        × ((p : Ptr) (b : ℕ) → entry p b t ≡ entry p b s)
        × (t.frames ≡ s.frames))
      ⊎ ((refused ≡ false) × AllTaken s.frames × (run ≡ failed))
      ⊎ ((refused ≡ false) × (frame : ℕ) × (t : Paging) × (run ≡ done 0 t) × Fed pd a frame w s t)
unfolding simple_fault
simple_fault_lem kmalloc_page w pd a write s sep there low room mapped =
    let got = get_page-there pd a s sep low there kmalloc_page in
    elim (Bool-cases (write && not w)) [
      | inl read_only ↦ inl (rw read_only refl, s, rw read_only refl, λ p b. refl, refl)
      | inr allowed ↦ elim (Bool-cases ((entry pd a s).present)) [
        | inl present ↦
            let is_taken = taken_iff pd a s sep low there ∙ sym mapped ∙ present in
            inl (
              rw (allowed, present) refl,
              s,
              rw (allowed, got) (rw is_taken refl),
              λ p b. refl,
              refl,
            )
        | inr absent ↦
            let vacant : Vacant pd a s = (ground (arith, mapped, absent), absent) in
            let not_taken = not_taken pd a s sep low there vacant in
            elim (fed pd a s sep low there w vacant room) [
              | inl (all, run) ↦ inr (
                  inl
                    (rw (allowed, absent) refl, all, rw (allowed, got) (rw (not_taken, run) refl)))
              | inr (frame, t, run, is_fed) ↦ inr (
                  inr (
                    rw (allowed, absent) refl,
                    frame,
                    t,
                    rw (allowed, got) (rw (not_taken, run) refl),
                    is_fed,
                  ))
            ]
      ]
    ]
