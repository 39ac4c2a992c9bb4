-- ===== src/Kernel/Segments/Faults/Sharing.antt =====
-- Faults in a shared segment: two maps of it lead to the same frames.
use grapes.Prelude.{
  ℕ, ◌/◌, ◌^◌, ◌≡◌, ◌≢◌, refl, sym, ap, ◌∙◌, ◌<◌, ◌⊎◌, inl, inr, true, false, ◌&&◌, some, List,
  ◌==◌, get_elem?, set, arith,
}
use mathlib.Core.Path.{subst}
use native.Mathlib.Decide.{ℕ_discrete}
use grapes.Prelude.Pointers.{Ptr, null}
use grapes.Prelude.Runs.{done, failed, done-same, Action}
use grapes.Word.{sub32, page_floor}
use grapes.Kernel.Frames.Update.{bit_in, get_elem?-set}
use grapes.Kernel.Paging.{Paging, page_map, table_index}
use grapes.Kernel.Paging.View.{entry, Separate, user_end, same_page}
use grapes.Kernel.Segments.Faults.{shm_fault}
use grapes.Kernel.Segments.Faults.Serve.{
  Mapped, Vacant, user_page, Room, AllTaken, Fed, page, placed, not_taken, fed, get_page-there,
}

-- In a shared segment, at a page that nothing is mapped to.
shm_fault_lem :
    (kmalloc_page : Action Paging (ℕ × ℕ)) (fs : List ℕ) (pd : Ptr) (start a : ℕ) (s : Paging)
    → Separate s
    → s.tables pd (table_index a) ≢ null
    → a < user_end
    → Vacant pd a s
    → (i : ℕ) → sub32 (page_floor a) start / 0x1000 ≡ i
    → (f : ℕ) → get_elem? fs i ≡ some f
    → f < 2 ^ 20
    → let run = shm_fault kmalloc_page fs pd start a s in
      (f ≢ 0
        → (t : Paging) × (run ≡ done (0, fs) t)
          × Mapped pd a (user_page f true) s t
          × (t.frames ≡ s.frames))
      × (f ≡ 0
          → Room s.frames
          → (AllTaken s.frames × (run ≡ failed))
            ⊎ ((frame : ℕ) × (t : Paging) × (run ≡ done (0, set fs i frame) t)
                × Fed pd a frame true s t))
unfolding shm_fault
shm_fault_lem kmalloc_page fs pd start a s sep there low vacant i is_i f kept small =
    let not_taken = not_taken pd a s sep low there vacant in
    let got = get_page-there pd a s sep low there kmalloc_page in
    (
      λ old.
          let is_old : (f == 0) ≡ false = ground (arith, old) in
          let (mapped, same) = placed pd a s sep low there f true s.frames vacant small in
          (
            page_map (page pd a s sep low there) f true true s,
            rw got (rw (not_taken, is_i, kept, is_old) refl),
            mapped,
            same,
          ),
      λ none_yet room. elim (fed pd a s sep low there true vacant room) [
        | inl (all, run) ↦ inl (all, rw got (rw (not_taken, is_i, kept, none_yet, run) refl))
        | inr (frame, t, run, is_fed) ↦
            inr
              (frame, t, rw got (rw (not_taken, is_i, kept, none_yet, run) (rw is_i refl)), is_fed)
      ],
    )

-- A fault in a shared segment that is served maps the frame that the segment keeps for the page.
served :
    (kmalloc_page : Action Paging (ℕ × ℕ)) (fs fs' : List ℕ) (pd : Ptr) (start a : ℕ) (s t : Paging)
    → Separate s
    → s.tables pd (table_index a) ≢ null
    → a < user_end
    → Room s.frames
    → bit_in s.frames.bits 0 ≡ 1
    → Vacant pd a s
    → (i : ℕ) → sub32 (page_floor a) start / 0x1000 ≡ i
    → (f : ℕ) → get_elem? fs i ≡ some f
    → f < 2 ^ 20
    → shm_fault kmalloc_page fs pd start a s ≡ done (0, fs') t
    → (g : ℕ) × (get_elem? fs' i ≡ some g)
      × (g < 2 ^ 20)
      × (g ≢ 0)
      × Mapped pd a (user_page g true) s t
served kmalloc_page fs fs' pd start a s t sep there low room zero_taken vacant i is_i f kept small
      run =
    let (old, new_frame) =
      shm_fault_lem kmalloc_page fs pd start a s sep there low vacant i is_i f kept small in
    elim (ℕ_discrete f 0) [
      | no some_frame ↦
          let (u, ok, mapped, _) = old some_frame in
          let (e, e') = done-same (sym ok ∙ run) in
          (
            f,
            subst (λ xs. get_elem? xs.1 i ≡ some f) e kept,
            small,
            some_frame,
            subst (Mapped pd a (user_page f true) s) e' mapped,
          )
      | yes none_yet ↦ elim (new_frame none_yet room) [
        | inl (all, bad) ↦ absurd (cc)
        | inr (g, u, ok, is_fed) ↦
            let (e, e') = done-same (sym ok ∙ run) in
            (
              g,
              subst (λ xs. get_elem? xs.1 i ≡ some g) e
                  (ground (arith, get_elem?-set fs i i g f kept)),
              is_fed.fits,
              λ z. ground (arith, is_fed.was_free, zero_taken),
              subst (Mapped pd a (user_page g true) s) e' is_fed.mapped,
            )
      ]
    ]

-- Two places whose page tables are there already, in two directories or in one, at the same offset of
-- a shared segment: after a fault at
-- the first that is served, a fault at the second maps the same frame and takes none.
pub shm_fault-shared :
    (kmalloc_page : Action Paging (ℕ × ℕ)) (fs fs' : List ℕ) (pd : Ptr) (start a : ℕ) (s t : Paging)
    (pd' : Ptr) (start' a' : ℕ)
    → Separate s
    → s.tables pd (table_index a) ≢ null
    → a < user_end
    → Room s.frames
    → bit_in s.frames.bits 0 ≡ 1
    → Vacant pd a s
    → (f : ℕ) → get_elem? fs (sub32 (page_floor a) start / 0x1000) ≡ some f
    → f < 2 ^ 20
    → shm_fault kmalloc_page fs pd start a s ≡ done (0, fs') t
    → t.tables pd' (table_index a') ≢ null
    → a' < user_end
    → Vacant pd' a' s
    → (pd == pd') && same_page a a' ≡ false
    → sub32 (page_floor a') start' / 0x1000 ≡ sub32 (page_floor a) start / 0x1000
    → (u : Paging) × (shm_fault kmalloc_page fs' pd' start' a' t ≡ done (0, fs') u)
      × ((entry pd' a' u).frame ≡ (entry pd a u).frame)
      × ((entry pd a u).present ≡ true)
      × ((entry pd' a' u).present ≡ true)
      × (u.frames ≡ t.frames)
shm_fault-shared kmalloc_page fs fs' pd start a s t pd' start' a' sep there low room zero_taken
      vacant f kept small run there' low' vacant' differ same =
    let i = sub32 (page_floor a) start / 0x1000 in
    let (g, is_g, fits, some_frame, mapped) =
      served kmalloc_page fs fs' pd start a s t sep there low room zero_taken vacant i refl f kept
        small run in
    let untouched : entry pd' a' t ≡ entry pd' a' s =
      ground (arith, mapped.entries pd' a', differ) in
    let (old, _) =
      shm_fault_lem kmalloc_page fs' pd' start' a' t mapped.apart there' low'
        (subst (λ e. (e.frame ≡ 0) × (e.present ≡ false)) (sym untouched) vacant') i same g is_g
        fits in
    let (u, ok, mapped', frames) = old some_frame in
    let second : entry pd' a' u ≡ user_page g true = ground (arith, mapped'.entries pd' a') in
    let first : entry pd a u ≡ user_page g true =
      ground (arith, mapped'.entries pd a, mapped.entries pd a, differ) in
    (
      u,
      ok,
      ap (λ e. e.frame) second ∙ sym (ap (λ e. e.frame) first),
      ap (λ e. e.present) first,
      ap (λ e. e.present) second,
      frames,
    )
