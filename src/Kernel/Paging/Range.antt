-- ===== src/Kernel/Paging/Range.antt =====
-- Unmapping a range of pages and giving their frames back.
use grapes.Prelude.{
  ℕ, zero, suc, ◌+◌, ◌*◌, ◌/◌, ◌%◌, ◌≡◌, ◌≢◌, refl, sym, ap, ◌∙◌, ◌<◌, ◌≤◌, Bool, true, false, ◌&&◌,
  not, some, length, ltb, leb, ◌==◌, if◌then◌else◌, arith, Bool-cases, inl, inr,
}
use mathlib.Core.Path.{subst}
use grapes.Prelude.Pointers.{Ptr, null}
use grapes.Prelude.Runs.{done}
use grapes.Word.{add32}
use grapes.Kernel.Frames.{Bitset, index, frame_free}
use grapes.Kernel.Frames.Update.{bit_in, clear_bit_lem}
use grapes.Kernel.Paging.{
  Page, Paging, table_index, page_index, find_page, page_unmap, page_unmap_free, unmap_free_loop,
}
use grapes.Kernel.Paging.View.{entry, Apart, Separate, user_end, same_page, entry-set_page}

-- a page that is mapped to no frame any more
abbrev pub cleared : Page → Page
cleared p = record p { present = false; frame = 0 }

-- The bit set has a bit for the frame of every page.
abbrev pub Covers : Paging → Type 0
Covers s = (p : Ptr) (b : ℕ) → index ((entry p b s).frame) < length s.frames.bits

-- What one call of `page_unmapFree` does.
pub record Unmapped (pd : Ptr) (i : ℕ) (s t : Paging) : Type 0 where
  pub tables : t.tables ≡ s.tables
  pub size : length t.frames.bits ≡ length s.frames.bits
  pub entries :
      (p : Ptr) (b : ℕ)
      → entry p b t ≡ (if (pd == p) && same_page i b then cleared (entry p b s) else entry p b s)
  pub bits :
      (m : ℕ)
      → bit_in t.frames.bits m
        ≡ (if ((entry pd i s).frame == m) && not (m == 0) then 0 else bit_in s.frames.bits m)

-- A page with no table, or with no frame.
absent-Unmapped :
    (pd : Ptr) (i : ℕ) (s : Paging) → s.tables pd (table_index i) ≡ null → Unmapped pd i s s
absent-Unmapped pd i s absent = record {
  tables = refl;
  size = refl;
  entries = λ p b. ground (arith, absent);
  bits = λ m. ground (arith, absent);
}

-- The page is cleared, and the bits have changed already.
cleared-Unmapped :
    (pd : Ptr) (i : ℕ) (s : Paging) (t : Bitset)
    → Separate s
    → i < user_end
    → s.tables pd (table_index i) ≢ null
    → length t.bits ≡ length s.frames.bits
    → ((m : ℕ)
        → bit_in t.bits m
          ≡ (if ((entry pd i s).frame == m) && not (m == 0) then 0 else bit_in s.frames.bits m))
    → Unmapped pd i s
        (page_unmap (some (s.tables pd (table_index i), page_index i)) (record s { frames = t }))
unfolding page_unmap
cleared-Unmapped pd i s t sep low there size bits = record {
  tables = refl;
  size = size;
  entries = λ p b. ground (
    arith,
    entry-set_page pd p i b (cleared (s.pages (s.tables pd (table_index i)) (page_index i)))
        (record s { frames = t }) sep low there,
    there,
  );
  bits = bits;
}

page_unmap_free_lem :
    (pd : Ptr) (i : ℕ) (s : Paging)
    → Separate s
    → i < user_end
    → Covers s
    → (t : Paging) × (page_unmap_free (find_page pd i s) s ≡ some t) × Unmapped pd i s t
unfolding page_unmap_free find_page frame_free
page_unmap_free_lem pd i s sep low covers =
    elim (Bool-cases (s.tables pd (table_index i) == null)) [
      | inl absent ↦ (s, rw absent refl, absent-Unmapped pd i s (ground (arith, absent)))
      | inr there ↦
          let page = s.pages (s.tables pd (table_index i)) (page_index i) in
          let is_entry : entry pd i s ≡ page = rw there refl in
          elim (Bool-cases (page.frame == 0)) [
            | inl no_frame ↦ (
              page_unmap (some (s.tables pd (table_index i), page_index i)) s,
              rw (there, no_frame, page_unmap_free) refl,
              cleared-Unmapped pd i s s.frames sep low (ground (arith, there)) refl
                  (λ m. ground (arith, is_entry, no_frame)),
            )
            | inr mapped ↦
                let inside : index (page.frame) < length s.frames.bits =
                  subst (λ e. index (e.frame) < length s.frames.bits) is_entry (covers pd i) in
                let (t, ok, _, size, bits) = clear_bit_lem s.frames page.frame inside in
                (
                  page_unmap (some (s.tables pd (table_index i), page_index i))
                      (record s { frames = t }),
                  rw (there, mapped, ok, page_unmap_free) refl,
                  cleared-Unmapped pd i s t sep low (ground (arith, there)) size
                      (λ m. ground (arith, is_entry, mapped, bits m)),
                )
          ]
    ]

-- The pages of a range that starts with a page.
abbrev pub in_range : (start stop a : ℕ) → Bool
in_range start stop a = leb start a && ltb (a / 0x1000 * 0x1000) stop

-- What the loop does to a range of a directory: its pages are cleared and their frames are free, and
-- no other page and no other frame changes.
pub record Released (pd : Ptr) (start stop : ℕ) (s t : Paging) : Type 0 where
  pub tables : t.tables ≡ s.tables
  pub size : length t.frames.bits ≡ length s.frames.bits
  pub entries :
      (p : Ptr) (b : ℕ)
      → entry p b t
        ≡ (if (pd == p) && in_range start stop b then cleared (entry p b s) else entry p b s)
  pub freed :
      (b : ℕ)
      → in_range start stop b ≡ true
      → (entry pd b s).frame ≢ 0
      → bit_in t.frames.bits ((entry pd b s).frame) ≡ 0
  pub stays_free : (m : ℕ) → bit_in s.frames.bits m ≡ 0 → bit_in t.frames.bits m ≡ 0
  pub kept :
      (m : ℕ)
      → ((b : ℕ)
          → in_range start stop b ≡ true
          → (entry pd b s).frame ≢ 0
          → (entry pd b s).frame ≢ m)
      → bit_in t.frames.bits m ≡ bit_in s.frames.bits m

pub empty-Released :
    (pd : Ptr) (start stop : ℕ) (s : Paging)
    → start % 0x1000 ≡ 0
    → stop ≤ start
    → Released pd start stop s s
empty-Released pd start stop s aligned le = record {
  tables = refl;
  size = refl;
  entries = λ p b. ground arith;
  freed = λ b h ne. absurd (ground arith);
  stays_free = λ m e. e;
  kept = λ m h. refl;
}

module _ (pd : Ptr) (start stop : ℕ) (s t u : Paging) (aligned : start % 0x1000 ≡ 0)
    (more : start < stop) (first : Unmapped pd start s t)
    (rest : Released pd (start + 0x1000) stop t u) where
  step-entries :
      (p : Ptr) (b : ℕ)
      → entry p b u
        ≡ (if (pd == p) && in_range start stop b then cleared (entry p b s) else entry p b s)
  step-entries p b = ground (arith, first.entries p b, rest.entries p b, aligned, more)

  -- The pages behind the first are as they were before it.
  later : (b : ℕ) → in_range (start + 0x1000) stop b ≡ true → entry pd b t ≡ entry pd b s
  later b inside = ground (arith, first.entries pd b, aligned)

  step-stays_free : (m : ℕ) → bit_in s.frames.bits m ≡ 0 → bit_in u.frames.bits m ≡ 0
  step-stays_free m e = rest.stays_free m (ground (arith, first.bits m, e))

  step-freed :
      (b : ℕ)
      → in_range start stop b ≡ true
      → (entry pd b s).frame ≢ 0
      → bit_in u.frames.bits ((entry pd b s).frame) ≡ 0
  step-freed b inside some_frame = elim (Bool-cases (same_page start b)) [
    | inl here ↦
        let e : (entry pd start s).frame ≡ (entry pd b s).frame = ground (arith, here) in
        rest.stays_free ((entry pd b s).frame)
          (ground (arith, first.bits ((entry pd b s).frame), e, some_frame))
    | inr behind ↦
        let inside' : in_range (start + 0x1000) stop b ≡ true =
          ground (arith, behind, inside, aligned) in
        let e : (entry pd b t).frame ≡ (entry pd b s).frame = ap (λ x. x.frame) (later b inside') in
        subst (λ f. bit_in u.frames.bits f ≡ 0) e
          (rest.freed b inside' (λ z. some_frame (sym e ∙ z)))
  ]

  step-kept :
      (m : ℕ)
      → ((b : ℕ)
          → in_range start stop b ≡ true
          → (entry pd b s).frame ≢ 0
          → (entry pd b s).frame ≢ m)
      → bit_in u.frames.bits m ≡ bit_in s.frames.bits m
  step-kept m h =
      let in_first : in_range start stop start ≡ true = ground (arith, aligned, more) in
      let bit_t : bit_in t.frames.bits m ≡ bit_in s.frames.bits m =
        ground (arith, first.bits m, h start in_first) in
      rest.kept m (λ b inside some_frame hit.
        let e : (entry pd b t).frame ≡ (entry pd b s).frame = ap (λ x. x.frame) (later b inside) in
        h b (wider b inside) (λ z. some_frame (e ∙ z)) (sym e ∙ hit))
      ∙ bit_t
    where
      wider : (b : ℕ) → in_range (start + 0x1000) stop b ≡ true → in_range start stop b ≡ true
      wider b inside = ground arith

  step-Released : Released pd start stop s u
  step-Released = record {
    tables = rest.tables ∙ first.tables;
    size = rest.size ∙ first.size;
    entries = step-entries;
    freed = step-freed;
    stays_free = step-stays_free;
    kept = step-kept;
  }

-- With page tables that stand apart and frames within the bit set, the loop over a range of user
-- memory that starts with a page ends, within the rounds of the whole address space, and releases
-- the range.
pub unmap_free_loop-Released :
    (fuel : ℕ) (pd : Ptr) (start stop : ℕ) (s : Paging)
    → Separate s
    → Covers s
    → start % 0x1000 ≡ 0
    → stop ≤ user_end
    → stop ≤ start + fuel * 0x1000
    → (t : Paging) × (unmap_free_loop fuel pd start stop s ≡ done tt t) × Released pd start stop s t
unfolding unmap_free_loop
unmap_free_loop-Released zero pd start stop s sep covers aligned low enough =
    (s, ground arith, empty-Released pd start stop s aligned (omega arith))
unmap_free_loop-Released (suc fuel) pd start stop s sep covers aligned low enough =
    elim (Bool-cases (ltb start stop)) [
      | inr over ↦ (s, rw over refl, empty-Released pd start stop s aligned (ground (arith, over)))
      | inl more ↦
          let less : start < stop = ground (arith, more) in
          let (t, ok, first) = page_unmap_free_lem pd start s sep (omega arith) covers in
          let next : add32 start 0x1000 ≡ start + 0x1000 = omega arith in
          let (u, run, rest) =
            unmap_free_loop-Released fuel pd (start + 0x1000) stop t
              (subst (λ f. Apart f) (sym first.tables) sep)
              (λ p b. ground (arith, first.entries p b, covers p b, first.size)) (omega arith) low
              (omega arith) in
          (
            u,
            rw (more, ok)
                (subst (λ x. unmap_free_loop fuel pd x stop t ≡ done tt u) (sym next) run),
            step-Released pd start stop s t u aligned less first rest,
          )
    ]
