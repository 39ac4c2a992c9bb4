-- ===== src/Library/Shm/Ownership.antt =====
-- What `shm_alloc` promises, in terms of who owns an address of the range.
use grapes.Prelude.{
  ℕ, ◌+◌, ◌%◌, ◌≤◌, ◌≡◌, refl, true, false, none, some, List, [], ◌∷◌, arith, ◌⊎◌, inl, inr,
  Option-cases, if◌then◌else◌,
}
use grapes.Word.{page_size, page_up}
use grapes.Library.Shm.{Block, area_start, area_end, init, ready, best_fit, take_at, alloc}
use grapes.Library.Shm.Tiling.{
  Tiles, Merged, Fits, Closest, NoFit, best_fit-Fits, best_fit-Closest, best_fit-NoFit,
}
use grapes.Library.Shm.Alloc.{
  Pages, take_at-Tiles, take_at-Merged, take_at-start, take_at-aligned, take_at-owner,
  take_at-unowned, within, owner,
}

-- The blocks cover the whole range with no gap, and no two holes are neighbours.
pub record IsValid (bs : List Block) : Type 0 where
  pub tiles : Tiles area_start area_end bs
  pub merged : Merged false bs

pub init-IsValid : IsValid init
unfolding init
init-IsValid = record { tiles = omega arith; merged = (refl, tt) }

pub ready-IsValid : (bs : List Block) → IsValid bs → IsValid (ready bs)
unfolding ready
ready-IsValid [] v = init-IsValid
ready-IsValid (b ∷ bs) v = v

-- The two ways in which `shm_alloc` can end.
pub data Outcome (size : ℕ) (bs : List Block) : ℕ × List Block → Type 0 where
  full : NoFit size bs → Outcome size bs (0, bs)
  found : (k n : ℕ) → Fits size bs k n → Closest size n bs → Outcome size bs (take_at size k bs)

alloc_found :
    (n k m : ℕ) (bs : List Block)
    → best_fit (page_up n) (ready bs) 0 none ≡ some (k, m)
    → Fits (page_up n) (ready bs) k m
alloc_found n k m bs e = elim (best_fit-Fits (page_up n) (ready bs) 0 none k m e) [
  | inl absent ↦ absurd (cc)
  | inr (j, at, fits) ↦ let same : k ≡ j = omega arith in rw same fits
]

pub alloc-Outcome : (n : ℕ) (bs : List Block) → Outcome (page_up n) (ready bs) (alloc n bs)
unfolding alloc
alloc-Outcome n bs = elim (Option-cases (best_fit (page_up n) (ready bs) 0 none)) [
  | inl none_fits ↦
      rw (none_fits, alloc) (full (best_fit-NoFit (page_up n) (ready bs) 0 none none_fits).1)
  | inr ((k, m), e) ↦
      rw (e, alloc)
        (found k m (alloc_found n k m bs e)
          (best_fit-Closest (page_up n) (ready bs) 0 none k m e).1)
]

module _ (n : ℕ) (bs : List Block) (v : IsValid (ready bs)) (pages : Pages (page_up n)) where
  -- After `shm_alloc`, whether it found a block or not, the blocks still cover the whole range, in
  -- whole pages and with no two neighbouring holes.
  pub alloc-IsValid : IsValid (alloc n bs).1
  alloc-IsValid = go (alloc n bs) (alloc-Outcome n bs)
    where
      go : (r : ℕ × List Block) → Outcome (page_up n) (ready bs) r → IsValid r.1
      go r (full no_fit) = v
      go r (found k m fits closest) = record {
        tiles =
            take_at-Tiles (page_up n) k m area_start area_end (ready bs) (omega arith) pages v.tiles
              fits;
        merged = take_at-Merged (page_up n) k m false (ready bs) v.merged fits;
      }

  -- `shm_alloc` returns 0 exactly when no hole is large enough, and then changes no block.
  -- Otherwise it returns a page-aligned address such that the addresses from it up to the rounded
  -- size lie in the range and had no owner; they now have the new block for their owner, and every
  -- other address keeps its own.
  pub alloc-owner :
      let (p, bs') = alloc n bs in
      (NoFit (page_up n) (ready bs) × (p ≡ 0) × (bs' ≡ ready bs))
      ⊎ ((area_start ≤ p)
          × (p + page_up n ≤ area_end)
          × (p % page_size ≡ 0)
          × ((a : ℕ) → within p (page_up n) a ≡ true → owner a (ready bs) ≡ none)
          × ((a : ℕ)
              → owner a bs' ≡ (if within p (page_up n) a then some p else owner a (ready bs))))
  alloc-owner = go (alloc n bs) (alloc-Outcome n bs)
    where
      size : ℕ
      size = page_up n

      go :
          (r : ℕ × List Block)
          → Outcome (page_up n) (ready bs) r
          → (NoFit size (ready bs) × (r.0 ≡ 0) × (r.1 ≡ ready bs))
            ⊎ ((area_start ≤ r.0)
                × (r.0 + size ≤ area_end)
                × (r.0 % page_size ≡ 0)
                × ((a : ℕ) → within r.0 size a ≡ true → owner a (ready bs) ≡ none)
                × ((a : ℕ)
                    → owner a r.1 ≡ (if within r.0 size a then some r.0 else owner a (ready bs))))
      go r (full no_fit) = inl (no_fit, refl, refl)
      go r (found k m fits closest) =
          let inside = take_at-start size k m area_start area_end (ready bs) v.tiles fits in
          inr (
            inside.0,
            inside.1,
            take_at-aligned size k m area_start area_end (ready bs) refl v.tiles fits,
            λ a. take_at-unowned size k m area_start area_end a (ready bs) v.tiles fits,
            λ a. take_at-owner size k m area_start area_end a (ready bs) (omega arith) v.tiles fits,
          )
