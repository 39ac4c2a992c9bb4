-- ===== src/Library/Shm/RoundTrip.antt =====
-- `shm_free` after `shm_alloc` restores the list of blocks.
use grapes.Prelude.{
  ℕ, zero, suc, ◌+◌, ◌-◌, ◌≤◌, ◌<◌, ◌≡◌, ◌≢◌, refl, Bool, true, false, List, [], ◌∷◌, arith, inl,
  inr, Bool-cases, ltb,
}
use grapes.Word.{u32, page_up, add32}
use grapes.Library.Shm.{
  Block, block, area_start, area_end, ready, take_block, take_at, alloc, unify, release, free_after,
  free,
}
use grapes.Library.Shm.Tiling.{Tiles, Tiles-le, Merged, Fits}
use grapes.Library.Shm.Alloc.{take_at-start}
use grapes.Library.Shm.Ownership.{IsValid, Outcome, full, found, alloc-Outcome}

-- Behind a used block nothing is joined.
unify_used : (b : Block) (bs : List Block) → b.is_hole ≡ false → unify (b ∷ bs) ≡ b ∷ bs
unfolding unify
unify_used b [] e = refl
unify_used b (n ∷ bs) e = ground arith

unify-Merged_same : (b : Block) (bs : List Block) → Merged false (b ∷ bs) → unify (b ∷ bs) ≡ b ∷ bs
unfolding unify
unify-Merged_same b [] m = refl
unify-Merged_same b (n ∷ bs) m = ground arith

-- A block that has just been taken, released again.
release-take_block :
    (size lo hi : ℕ) (h : Bool) (b : Block) (bs : List Block)
    → hi < u32
    → Tiles lo hi (b ∷ bs)
    → Merged h (b ∷ bs)
    → b.is_hole ≡ true
    → size ≤ b.size
    → (used : Block) (rest : List Block) → take_block size b bs ≡ used ∷ rest
    → release used rest ≡ b ∷ bs
unfolding take_block release unify
release-take_block size lo hi h b [] fit t m e le used rest taken = ground arith
release-take_block size lo hi h b (n ∷ bs) fit t m e le used rest taken =
    ground (arith, Tiles-le (lo + b.size) hi (n ∷ bs) t.3)

take_block-head :
    (size : ℕ) (b : Block) (bs : List Block)
    → (used : Block) × (rest : List Block) × (take_block size b bs ≡ used ∷ rest)
      × (used.start ≡ b.start)
unfolding take_block
take_block-head size b bs = elim (Bool-cases (ltb size b.size)) [
  | inl split ↦ (
    block b.start size false,
    block (add32 b.start size) (b.size - size) true ∷ bs,
    rw split,
    refl,
  )
  | inr whole ↦ (block b.start b.size false, bs, rw whole, refl)
]

free_after_hit :
    (p : ℕ) (b used : Block) (rest : List Block)
    → used.start ≡ p
    → free_after p b (used ∷ rest) ≡ unify (b ∷ release used rest)
unfolding free_after
free_after_hit p b used rest e = ground arith

free_hit :
    (p : ℕ) (used : Block) (rest : List Block)
    → used.start ≡ p
    → free p (used ∷ rest) ≡ release used rest
unfolding free
free_hit p used rest e = ground arith

free_after-take_at :
    (size k n lo hi : ℕ) (h : Bool) (b : Block) (bs : List Block)
    → hi < u32
    → Tiles lo hi (b ∷ bs)
    → Merged h (b ∷ bs)
    → Fits size bs k n
    → free_after (take_at size k bs).0 b (take_at size k bs).1 ≡ b ∷ bs
unfolding free_after take_at
free_after-take_at size k n lo hi h b [] fit t m f = absurd f
free_after-take_at size zero n lo hi h b (c ∷ bs) fit t m f =
    let (used, rest, taken, same) = take_block-head size c bs in
    rw
      (
        taken,
        free_after_hit c.start b used rest same,
        release-take_block size (lo + b.size) hi b.is_hole c bs fit t.3 m.1 f.0 (omega arith) used
            rest taken,
      )
      (unify-Merged_same b (c ∷ bs) (refl, m.1))
free_after-take_at size (suc k) n lo hi h b (c ∷ bs) fit t m f = ground (
  arith,
  take_at-start size k n (lo + b.size + c.size) hi bs t.3.3 f,
  free_after-take_at size k n (lo + b.size) hi b.is_hole c bs fit t.3 m.1 f,
)

free-take_at :
    (size k n lo hi : ℕ) (h : Bool) (bs : List Block)
    → hi < u32
    → Tiles lo hi bs
    → Merged h bs
    → Fits size bs k n
    → free (take_at size k bs).0 (take_at size k bs).1 ≡ bs
unfolding free take_at
free-take_at size k n lo hi h [] fit t m f = absurd f
free-take_at size zero n lo hi h (c ∷ bs) fit t m f =
    let (used, rest, taken, same) = take_block-head size c bs in
    rw (taken, free_hit c.start used rest same)
      (release-take_block size lo hi h c bs fit t m f.0 (omega arith) used rest taken)
free-take_at size (suc k) n lo hi h (c ∷ bs) fit t m f = ground (
  arith,
  take_at-start size k n (lo + c.size) hi bs t.3 f,
  free_after-take_at size k n lo hi h c bs fit t m f,
)

free-Outcome :
    (size : ℕ) (bs : List Block) (r : ℕ × List Block)
    → IsValid bs
    → Outcome size bs r
    → r.0 ≢ 0
    → free r.0 r.1 ≡ bs
free-Outcome size bs r v (full no_fit) ne = absurd (ne refl)
free-Outcome size bs r v (found k n fits closest) ne =
    free-take_at size k n area_start area_end false bs (omega arith) v.tiles v.merged fits

-- Whatever `shm_alloc` has handed out, `shm_free` of it at once restores the blocks exactly: what
-- was split off is joined again, and nothing else.
pub free-alloc :
    (n : ℕ) (bs : List Block)
    → IsValid (ready bs)
    → (alloc n bs).0 ≢ 0
    → free (alloc n bs).0 (alloc n bs).1 ≡ ready bs
free-alloc n bs v ne = free-Outcome (page_up n) (ready bs) (alloc n bs) v (alloc-Outcome n bs) ne
