-- ===== src/Kernel/Heap/Index.antt =====
-- The index of holes: in the order of their sizes, so that the first hole that fits is the smallest.
use grapes.Prelude.{
  ℕ, ◌≡◌, ◌≤◌, ◌<◌, ◌⊎◌, refl, true, none, some, List, [], ◌∷◌, ltb, leb, arith, Bool-cases, inl,
  inr,
}
use mathlib.Core.Path.{subst}
use native.Mathlib.Decide.{ℕ_discrete}
use grapes.Prelude.Pointers.{has}
use grapes.Kernel.Heap.{Heap, insert_in, remove_in, idx_insert, idx_remove, find_hole}

-- Sizes do not fall along the list; none is below `m`.
abbrev pub IsSorted : (size : ℕ → ℕ) → ℕ → List ℕ → Type 0
IsSorted size m [] = Unit
IsSorted size m (x ∷ xs) = (m ≤ size x) × IsSorted size (size x) xs

lower : (size : ℕ → ℕ) (m n : ℕ) (xs : List ℕ) → m ≤ n → IsSorted size n xs → IsSorted size m xs
lower size m n [] l s = tt
lower size m n (x ∷ xs) l s = (omega arith, s.1)

insert_in-IsSorted :
    (size : ℕ → ℕ) (e m : ℕ) (xs : List ℕ)
    → m ≤ size e
    → IsSorted size m xs
    → IsSorted size m (insert_in size e xs)
unfolding insert_in
insert_in-IsSorted size e m [] l s = (l, tt)
insert_in-IsSorted size e m (x ∷ xs) l (first, rest) = elim (Bool-cases (ltb (size x) (size e))) [
  | inl less ↦ ground (arith, insert_in-IsSorted size e (size x) xs (ground arith) rest)
  | inr more ↦ ground arith
]

remove_in-IsSorted :
    (size : ℕ → ℕ) (e m : ℕ) (xs : List ℕ) → IsSorted size m xs → IsSorted size m (remove_in e xs)
unfolding remove_in
remove_in-IsSorted size e m [] s = tt
remove_in-IsSorted size e m (x ∷ xs) (first, rest) =
    ground (arith, remove_in-IsSorted size e (size x) xs rest, lower size m (size x) xs first rest)

-- Insertion into the index and removal from it keep it in the order of the sizes.
idx_insert-IsSorted :
    (e : ℕ) (h : Heap)
    → IsSorted h.size 0 h.index
    → IsSorted h.size 0 (idx_insert e h).index × IsSorted h.size 0 (idx_remove e h).index
unfolding idx_insert idx_remove
idx_insert-IsSorted e h s = (
  ground (arith, insert_in-IsSorted h.size e 0 h.index (omega arith) s),
  remove_in-IsSorted h.size e 0 h.index s,
)

above : (y n : ℕ) (size : ℕ → ℕ) (xs : List ℕ) → IsSorted size n xs → has y xs ≡ true → n ≤ size y
above y n size [] s h = absurd (cc)
above y n size (x ∷ xs) (first, rest) h = elim (ℕ_discrete x y) [
  | yes e ↦ subst (λ z. n ≤ size z) e first
  | no ne ↦ omega (arith, above y (size x) size xs rest (ground (arith, h)), first)
]

-- In an index in the order of the sizes, the hole that is found is one of the index that is large
-- enough, and no such hole of the index is smaller; none is found only if none is large enough.
pub find_hole_lem :
    (need m : ℕ) (size : ℕ → ℕ) (xs : List ℕ)
    → IsSorted size m xs
    → ((find_hole need size xs ≡ none) × ((y : ℕ) → has y xs ≡ true → size y < need))
      ⊎ ((x : ℕ) × (find_hole need size xs ≡ some x)
          × (has x xs ≡ true)
          × (need ≤ size x)
          × ((y : ℕ) → has y xs ≡ true → need ≤ size y → size x ≤ size y))
unfolding find_hole
find_hole_lem need m size [] s = inl (refl, λ y h. absurd (cc))
find_hole_lem need m size (x ∷ xs) (first, rest) = elim (Bool-cases (leb need (size x))) [
  | inl hit ↦
      inr
        (x, rw (hit, find_hole) refl, ground arith, ground arith, λ y there large. smallest y there)
  | inr miss ↦ elim (find_hole_lem need (size x) size xs rest) [
    | inl (none_fits, small) ↦ inl (
      rw (miss, find_hole) none_fits,
      λ y there. split y there (λ z. size z < need) (ground arith) (small y),
    )
    | inr (z, found, inside, large, least) ↦ inr (
      z,
      rw (miss, find_hole) found,
      ground (arith, inside),
      large,
      λ y there fits.
          split y there (λ w. need ≤ size w → size z ≤ size w) (λ l. absurd (ground arith))
            (least y) fits,
    )
  ]
]
  where
    split : (y : ℕ) → has y (x ∷ xs) ≡ true → (P : ℕ → Type 0) → P x → (has y xs ≡ true → P y) → P y
    split y there P here later = elim (ℕ_discrete x y) [
      | yes e ↦ subst P e here
      | no ne ↦ later (ground (arith, there))
    ]

    smallest : (y : ℕ) → has y (x ∷ xs) ≡ true → size x ≤ size y
    smallest y there =
        split y there (λ z. size x ≤ size z) (omega arith) (above y (size x) size xs rest)

-- A hole that is found is in the index, and large enough.
pub find_hole-has :
    (need x : ℕ) (size : ℕ → ℕ) (xs : List ℕ)
    → find_hole need size xs ≡ some x
    → (has x xs ≡ true) × (need ≤ size x)
unfolding find_hole
find_hole-has need x size [] found = absurd (cc)
find_hole-has need x size (y ∷ xs) found = ground (arith, find_hole-has need x size xs)
