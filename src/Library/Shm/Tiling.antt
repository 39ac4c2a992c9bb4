-- ===== src/Library/Shm/Tiling.antt =====
-- The blocks of the shared memory manager cover their range without gaps.
use grapes.Prelude.{
  ℕ, zero, suc, ◌+◌, ◌%◌, ◌≤◌, ◌<◌, ◌≡◌, refl, Bool, true, false, ◌&&◌, none, some, List, [], ◌∷◌,
  arith, ◌⊎◌, inl, inr, Bool-cases, leb,
}
use grapes.Word.{page_size}
use grapes.Library.Shm.{Block, Candidate, closer, best_fit}

-- From `lo` to `hi`, block behind block, each of some whole pages.
abbrev pub Tiles : ℕ → ℕ → List Block → Type 0
Tiles lo hi [] = lo ≡ hi
Tiles lo hi (b ∷ bs) =
    (b.start ≡ lo) × (0 < b.size) × (b.size % page_size ≡ 0) × Tiles (lo + b.size) hi bs

-- No hole stands behind a hole; `h` says whether one stands in front.
abbrev pub Merged : Bool → List Block → Type 0
Merged h [] = Unit
Merged h (b ∷ bs) = ((h && b.is_hole) ≡ false) × Merged b.is_hole bs

pub Tiles-le : (lo hi : ℕ) (bs : List Block) → Tiles lo hi bs → lo ≤ hi
Tiles-le lo hi [] t = omega arith
Tiles-le lo hi (b ∷ bs) t = omega (arith, Tiles-le (lo + b.size) hi bs t.3)

pub Merged-false : (h : Bool) (bs : List Block) → Merged h bs → Merged false bs
Merged-false h [] m = tt
Merged-false h (b ∷ bs) m = (refl, m.1)

-- At position `j` stands a hole of size `n`, large enough for `size`.
abbrev pub Fits : ℕ → List Block → ℕ → ℕ → Type 0
Fits size [] j n = ⊥
Fits size (b ∷ bs) zero n = (b.is_hole ≡ true) × (b.size ≡ n) × (size ≤ n)
Fits size (b ∷ bs) (suc j) n = Fits size bs j n

-- No hole that is large enough for `size` is smaller than `n`.
abbrev pub Closest : ℕ → ℕ → List Block → Type 0
Closest size n [] = Unit
Closest size n (b ∷ bs) = (b.is_hole ≡ true → size ≤ b.size → n ≤ b.size) × Closest size n bs

-- No hole is large enough for `size`.
abbrev pub NoFit : ℕ → List Block → Type 0
NoFit size [] = Unit
NoFit size (b ∷ bs) = (b.is_hole ≡ true → b.size < size) × NoFit size bs

abbrev taken? : ℕ → Block → Candidate → Bool
taken? size b c = leb size b.size && b.is_hole && closer b.size c

pub best_fit-Fits :
    (size : ℕ) (bs : List Block) (i : ℕ) (c : Candidate) (k n : ℕ)
    → best_fit size bs i c ≡ some (k, n)
    → (c ≡ some (k, n)) ⊎ ((j : ℕ) × (k ≡ i + j) × Fits size bs j n)
unfolding best_fit
best_fit-Fits size [] i c k n e = inl e
best_fit-Fits size (b ∷ bs) i c k n e = elim (Bool-cases (taken? size b c)) [
  | inl taken ↦ elim (best_fit-Fits size bs (i + 1) (some (i, b.size)) k n (rw taken at e)) [
    | inl here ↦ inr (0, ground arith, ground arith)
    | inr (j, at, fits) ↦ inr (suc j, omega arith, fits)
  ]
  | inr kept ↦ elim (best_fit-Fits size bs (i + 1) c k n (rw kept at e)) [
    | inl old ↦ inl old
    | inr (j, at, fits) ↦ inr (suc j, omega arith, fits)
  ]
]

-- What the search found is no larger than the candidate it began with.
abbrev NoLarger : ℕ → Candidate → Type 0
NoLarger n none = Unit
NoLarger n (some (k, m)) = n ≤ m

pub best_fit-Closest :
    (size : ℕ) (bs : List Block) (i : ℕ) (c : Candidate) (k n : ℕ)
    → best_fit size bs i c ≡ some (k, n)
    → NoLarger n c × Closest size n bs
unfolding best_fit
best_fit-Closest size [] i none k n e = (tt, tt)
best_fit-Closest size [] i (some (j, m)) k n e = (ground arith, tt)
best_fit-Closest size (b ∷ bs) i c k n e = elim (Bool-cases (taken? size b c)) [
  | inl taken ↦
      grind (arith, best_fit-Closest size bs (i + 1) (some (i, b.size)) k n (rw taken at e))
  | inr kept ↦ grind (arith, best_fit-Closest size bs (i + 1) c k n (rw kept at e))
]

pub best_fit-NoFit :
    (size : ℕ) (bs : List Block) (i : ℕ) (c : Candidate)
    → best_fit size bs i c ≡ none
    → (c ≡ none) × NoFit size bs
unfolding best_fit
best_fit-NoFit size [] i c e = (e, tt)
best_fit-NoFit size (b ∷ bs) i c e = grind (arith, best_fit-NoFit size bs (i + 1))
