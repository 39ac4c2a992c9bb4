-- ===== src/Library/Shm/Alloc.antt =====
-- `shm_alloc` keeps the blocks a tiling, and takes a hole.
use grapes.Prelude.{
  ℕ, zero, suc, ◌+◌, ◌%◌, ◌≤◌, ◌<◌, ◌≡◌, refl, Bool, true, ◌&&◌, Option, none, some, List, [], ◌∷◌,
  arith, leb, ltb, if◌then◌else◌,
}
use grapes.Word.{u32, page_size}
use grapes.Library.Shm.{Block, take_at}
use grapes.Library.Shm.Tiling.{Tiles, Tiles-le, Merged, Merged-false, Fits}

-- A size that `shm_alloc` asks a block for: some whole pages.
abbrev pub Pages : ℕ → Type 0
Pages size = (0 < size) × (size % page_size ≡ 0)

pub take_at-Tiles :
    (size k n lo hi : ℕ) (bs : List Block)
    → hi < u32
    → Pages size
    → Tiles lo hi bs
    → Fits size bs k n
    → Tiles lo hi (take_at size k bs).1
unfolding take_at
take_at-Tiles size k n lo hi [] fit p t f = absurd f
take_at-Tiles size zero n lo hi (b ∷ bs) fit p t f =
    ground (arith, Tiles-le (lo + b.size) hi bs t.3)
take_at-Tiles size (suc k) n lo hi (b ∷ bs) fit p t f =
    (t.0, t.1, t.2, take_at-Tiles size k n (lo + b.size) hi bs fit p t.3 f)

pub take_at-Merged :
    (size k n : ℕ) (h : Bool) (bs : List Block)
    → Merged h bs
    → Fits size bs k n
    → Merged h (take_at size k bs).1
unfolding take_at
take_at-Merged size k n h [] m f = absurd f
take_at-Merged size zero n h (b ∷ bs) m f = ground (arith, Merged-false b.is_hole bs m.1)
take_at-Merged size (suc k) n h (b ∷ bs) m f = (m.0, take_at-Merged size k n b.is_hole bs m.1 f)

pub take_at-start :
    (size k n lo hi : ℕ) (bs : List Block)
    → Tiles lo hi bs
    → Fits size bs k n
    → let p = (take_at size k bs).0 in (lo ≤ p) × (p + size ≤ hi)
unfolding take_at
take_at-start size k n lo hi [] t f = absurd f
take_at-start size zero n lo hi (b ∷ bs) t f = omega (arith, Tiles-le (lo + b.size) hi bs t.3)
take_at-start size (suc k) n lo hi (b ∷ bs) t f =
    omega (arith, take_at-start size k n (lo + b.size) hi bs t.3 f)

pub take_at-aligned :
    (size k n lo hi : ℕ) (bs : List Block)
    → lo % page_size ≡ 0
    → Tiles lo hi bs
    → Fits size bs k n
    → (take_at size k bs).0 % page_size ≡ 0
unfolding take_at
take_at-aligned size k n lo hi [] z t f = absurd f
take_at-aligned size zero n lo hi (b ∷ bs) z t f = omega arith
take_at-aligned size (suc k) n lo hi (b ∷ bs) z t f =
    take_at-aligned size k n (lo + b.size) hi bs (omega arith) t.3 f

-- The block of the range that `shm_alloc` hands out behaves as a map from addresses: the start of
-- the used block that an address lies in.
abbrev pub within : ℕ → ℕ → ℕ → Bool
within p size a = leb p a && ltb a (p + size)

abbrev pub owner : ℕ → List Block → Option ℕ
owner a [] = none
owner a (b ∷ bs) =
    if within b.start b.size a then (if b.is_hole then none else some b.start) else owner a bs

owner-below : (a lo hi : ℕ) (bs : List Block) → Tiles lo hi bs → a < lo → owner a bs ≡ none
owner-below a lo hi [] t h = refl
owner-below a lo hi (b ∷ bs) t h =
    ground (arith, owner-below a (lo + b.size) hi bs t.3 (omega arith))

-- The addresses of the new block, and no others, change their owner.
pub take_at-owner :
    (size k n lo hi a : ℕ) (bs : List Block)
    → hi < u32
    → Tiles lo hi bs
    → Fits size bs k n
    → let (p, bs') = take_at size k bs in
      owner a bs' ≡ (if within p size a then some p else owner a bs)
unfolding take_at
take_at-owner size k n lo hi a [] fit t f = absurd f
take_at-owner size zero n lo hi a (b ∷ bs) fit t f =
    ground (arith, Tiles-le (lo + b.size) hi bs t.3)
take_at-owner size (suc k) n lo hi a (b ∷ bs) fit t f = ground (
  arith,
  take_at-owner size k n (lo + b.size) hi a bs fit t.3 f,
  take_at-start size k n (lo + b.size) hi bs t.3 f,
)

-- Before, they had none.
pub take_at-unowned :
    (size k n lo hi a : ℕ) (bs : List Block)
    → Tiles lo hi bs
    → Fits size bs k n
    → within (take_at size k bs).0 size a ≡ true
    → owner a bs ≡ none
unfolding take_at
take_at-unowned size k n lo hi a [] t f w = absurd f
take_at-unowned size zero n lo hi a (b ∷ bs) t f w = ground arith
take_at-unowned size (suc k) n lo hi a (b ∷ bs) t f w = ground (
  arith,
  take_at-unowned size k n (lo + b.size) hi a bs t.3 f w,
  take_at-start size k n (lo + b.size) hi bs t.3 f,
)
