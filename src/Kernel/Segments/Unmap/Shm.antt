-- ===== src/Kernel/Segments/Unmap/Shm.antt =====
-- What the loops of `shmseg_unmap` and `shmseg_delete` do.
use grapes.Prelude.{
  ℕ, zero, suc, ◌+◌, ◌*◌, ◌%◌, ◌≡◌, refl, sym, ◌∙◌, ◌<◌, ◌≤◌, inl, inr, ◌&&◌, not, some, List, [],
  ◌∷◌, ltb, ◌==◌, if◌then◌else◌, length, arith, Bool-cases,
}
use mathlib.Core.Path.{subst}
use grapes.Prelude.Pointers.{Ptr, null, has}
use grapes.Prelude.Runs.{done}
use grapes.Word.{add32}
use grapes.Kernel.Frames.{Bitset, index, frame_free}
use grapes.Kernel.Frames.Update.{bit_in, clear_bit_lem}
use grapes.Kernel.Paging.{Paging, table_index, page_index, find_page, page_unmap}
use grapes.Kernel.Paging.View.{entry, Apart, Separate, user_end, same_page, entry-set_page}
use grapes.Kernel.Paging.Range.{cleared, in_range}
use grapes.Kernel.Segments.{shm_unmap_loop, free_frames}

-- The pages of a range of a directory are mapped to nothing any more; no frame is freed.
pub record Forgotten (pd : Ptr) (start stop : ℕ) (s t : Paging) : Type 0 where
  pub tables : t.tables ≡ s.tables
  pub frames : t.frames ≡ s.frames
  pub entries :
      (p : Ptr) (b : ℕ)
      → entry p b t
        ≡ (if (pd == p) && in_range start stop b then cleared (entry p b s) else entry p b s)

page_unmap_lem :
    (pd : Ptr) (a : ℕ) (s : Paging)
    → Separate s
    → a < user_end
    → let t = page_unmap (find_page pd a s) s in
      (t.tables ≡ s.tables)
      × (t.frames ≡ s.frames)
      × ((p : Ptr) (b : ℕ)
          → entry p b t
            ≡ (if (pd == p) && same_page a b then cleared (entry p b s) else entry p b s))
unfolding page_unmap find_page
page_unmap_lem pd a s sep low = elim (Bool-cases (s.tables pd (table_index a) == null)) [
  | inl absent ↦ rw absent (refl, refl, λ p b. ground (arith, absent))
  | inr there ↦
      let page = s.pages (s.tables pd (table_index a)) (page_index a) in
      rw there (
        refl,
        refl,
        λ p b. ground (
          arith,
          entry-set_page pd p a b (cleared page) s sep low (ground (arith, there)),
          there,
        ),
      )
]

-- The loop, from page `i` on.
pub shm_unmap_loop-Forgotten :
    (fuel : ℕ) (pd : Ptr) (start i len : ℕ) (s : Paging)
    → Separate s
    → (start + i) % 0x1000 ≡ 0
    → start + len ≤ user_end
    → len ≤ i + fuel * 0x1000
    → (t : Paging) × (shm_unmap_loop fuel pd start i len s ≡ done tt t)
      × Forgotten pd (start + i) (start + len) s t
unfolding shm_unmap_loop
shm_unmap_loop-Forgotten zero pd start i len s sep aligned low enough =
    (s, ground arith, record { tables = refl; frames = refl; entries = λ p b. ground arith })
shm_unmap_loop-Forgotten (suc fuel) pd start i len s sep aligned low enough =
    elim (Bool-cases (ltb i len)) [
      | inr over ↦
          (s, rw over refl, record { tables = refl; frames = refl; entries = λ p b. ground arith })
      | inl more ↦
          let less : i < len = ground (arith, more) in
          let here : add32 start i ≡ start + i = omega arith in
          let next : add32 i 0x1000 ≡ i + 0x1000 = omega arith in
          let t = page_unmap (find_page pd (start + i) s) s in
          let (tables, frames, entries) = page_unmap_lem pd (start + i) s sep (omega arith) in
          let (u, run, rest) =
            shm_unmap_loop-Forgotten fuel pd start (i + 0x1000) len t
              (subst (λ f. Apart f) (sym tables) sep) (omega arith) low (omega arith) in
          (
            u,
            rw more (
                subst
                  (λ x.
                    shm_unmap_loop fuel pd start x len
                      (page_unmap (find_page pd (add32 start i) s) s)
                    ≡ done tt u)
                  (sym next)
                  (subst
                    (λ y.
                      shm_unmap_loop fuel pd start (i + 0x1000) len
                        (page_unmap (find_page pd y s) s)
                      ≡ done tt u)
                    (sym here) run)),
            record {
              tables = rest.tables ∙ tables;
              frames = rest.frames ∙ frames;
              entries = λ p b. ground (arith, entries p b, rest.entries p b, aligned, less);
            },
          )
    ]

-- The frames of a list are within the bit set.
abbrev pub AllCovered : List ℕ → Bitset → Type 0
AllCovered [] t = Unit
AllCovered (f ∷ fs) t = (index f < length t.bits) × AllCovered fs t

covered_same :
    (fs : List ℕ) (t u : Bitset) → length u.bits ≡ length t.bits → AllCovered fs t → AllCovered fs u
covered_same [] t u e all = tt
covered_same (f ∷ fs) t u e (h, all) = (omega arith, covered_same fs t u e all)

-- The frames of the list that are not 0 are freed, and no others.
pub free_frames_lem :
    (fs : List ℕ) (t : Bitset)
    → AllCovered fs t
    → (u : Bitset) × (free_frames fs t ≡ some u)
      × ((m : ℕ) → bit_in u.bits m ≡ (if has m fs && not (m == 0) then 0 else bit_in t.bits m))
unfolding free_frames frame_free
free_frames_lem [] t all = (t, refl, λ m. refl)
free_frames_lem (f ∷ fs) t (h, all) = elim (Bool-cases (f == 0)) [
  | inl no_frame ↦
      let (u, run, bits) = free_frames_lem fs t all in
      (u, rw no_frame run, λ m. ground (arith, bits m, no_frame))
  | inr some_frame ↦
      let (t1, ok, _, size, bits1) = clear_bit_lem t f h in
      let (u, run, bits) = free_frames_lem fs t1 (covered_same fs t t1 size all) in
      (u, rw (some_frame, ok) run, λ m. ground (arith, bits m, bits1 m, some_frame))
]
