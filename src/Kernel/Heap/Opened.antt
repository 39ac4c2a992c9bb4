-- ===== src/Kernel/Heap/Opened.antt =====
-- A heap with one range taken out of its row of blocks, in which the code writes headers and
-- footers, and the steps by which the range is opened, changed and closed.
use grapes.Prelude.{
  ℕ, ◌+◌, ◌-◌, ◌≡◌, ◌<◌, ◌≤◌, ◌⊎◌, inl, inr, refl, sym, Bool, true, false, ◌&&◌, ◌||◌, not, List,
  [], ◌∷◌, ◌++◌, ◌==◌, arith, Bool-cases,
}
use grapes.Prelude.Pointers.{has, Distinct}
use grapes.Word.{u32}
use mathlib.Core.Path.{subst}
use grapes.Kernel.Heap.{Heap, insert_in, remove_in, idx_insert, idx_remove}
use grapes.Kernel.Heap.Blocks.{
  Block, Laid, starts, SameAt, Laid-same, Laid-append, starts-append, starts-inside,
}

has-insert_in :
    (size : ℕ → ℕ) (e y : ℕ) (xs : List ℕ)
    → has y (insert_in size e xs) ≡ true
    → ((e == y) || has y xs) ≡ true
unfolding insert_in
has-insert_in size e y [] h = ground (arith, h)
has-insert_in size e y (x ∷ xs) h = ground (arith, has-insert_in size e y xs)

insert_in-Distinct :
    (size : ℕ → ℕ) (e : ℕ) (xs : List ℕ)
    → has e xs ≡ false
    → Distinct xs
    → Distinct (insert_in size e xs)
unfolding insert_in
insert_in-Distinct size e [] out d = (refl, tt)
insert_in-Distinct size e (x ∷ xs) out (new, d) =
    ground (arith, insert_in-Distinct size e xs (ground arith) d, has-insert_in size e x xs)

has-remove_in :
    (e y : ℕ) (xs : List ℕ) → Distinct xs → has y (remove_in e xs) ≡ (has y xs && not (e == y))
unfolding remove_in
has-remove_in e y [] d = refl
has-remove_in e y (x ∷ xs) (new, d) = ground (arith, has-remove_in e y xs d)

remove_in-Distinct : (e : ℕ) (xs : List ℕ) → Distinct xs → Distinct (remove_in e xs)
unfolding remove_in
remove_in-Distinct e [] d = tt
remove_in-Distinct e (x ∷ xs) (new, d) =
    ground (arith, remove_in-Distinct e xs d, has-remove_in e x xs d)

pub idx_insert-SameAt : (e : ℕ) (h : Heap) (y : ℕ) → SameAt h (idx_insert e h) y
unfolding idx_insert
idx_insert-SameAt e h y = (ground arith, ground arith, ground arith, ground arith, ground arith)

pub idx_remove-SameAt : (e : ℕ) (h : Heap) (y : ℕ) → SameAt h (idx_remove e h) y
unfolding idx_remove
idx_remove-SameAt e h y = (refl, refl, refl, refl, refl)

pub has-idx_remove : (e : ℕ) (h : Heap) → Distinct h.index → has e (idx_remove e h).index ≡ false
unfolding idx_remove
has-idx_remove e h d = ground (arith, has-remove_in e e h.index d)

has-idx_insert :
    (e y : ℕ) (h : Heap) → has y (idx_insert e h).index ≡ true → ((e == y) || has y h.index) ≡ true
unfolding idx_insert
has-idx_insert e y h inside = ground (arith, inside, has-insert_in h.size e y h.index)

-- The blocks fill the heap from `lo` to `hi`, and the index holds holes only, none twice.
pub record Formed (h : Heap) (lo hi : ℕ) (bs : List (ℕ × Bool)) : Type 0 where
  pub low : 20 ≤ lo
  pub high : hi < u32
  pub laid : Laid h lo hi bs
  pub distinct : Distinct h.index
  pub holes : (y : ℕ) → has y h.index ≡ true → starts true lo bs y (h.size y) ≡ true

-- The same but for the `m` bytes at `x`, of which nothing is said.
pub record Opened (h : Heap) (lo hi : ℕ) (before : List (ℕ × Bool)) (x m : ℕ)
    (behind : List (ℕ × Bool)) : Type 0 where
  pub low : 20 ≤ lo
  pub high : hi < u32
  pub left : Laid h lo x before
  pub right : Laid h (x + m) hi behind
  pub distinct : Distinct h.index
  pub holes :
      (y : ℕ)
      → has y h.index ≡ true
      → (starts true lo before y (h.size y) || starts true (x + m) behind y (h.size y)) ≡ true

-- Writes within the range.
pub Opened-same :
    (h g : Heap) (lo hi : ℕ) (before : List (ℕ × Bool)) (x m : ℕ) (behind : List (ℕ × Bool))
    → g.index ≡ h.index
    → ((y : ℕ) → (y < x) ⊎ (x + m ≤ y) → SameAt h g y)
    → Opened h lo hi before x m behind
    → Opened g lo hi before x m behind
Opened-same h g lo hi before x m behind same_index same o = record {
  low = o.low;
  high = o.high;
  left = Laid-same h g lo x before (λ y l u. same y (inl u)) o.left;
  right = Laid-same h g (x + m) hi behind (λ y l u. same y (inr l)) o.right;
  distinct = subst Distinct (sym same_index) o.distinct;
  holes = λ y inside. at y (o.holes y (subst (λ xs. has y xs ≡ true) same_index inside));
}
  where
    size-same :
        (y : ℕ)
        → (starts true lo before y (h.size y) || starts true (x + m) behind y (h.size y)) ≡ true
        → g.size y ≡ h.size y
    size-same y s = elim (Bool-cases (starts true lo before y (h.size y))) [
      | inl first ↦
          let (l, u, least) = starts-inside h true lo x before y (h.size y) o.left first in
          (same y (inl (omega (arith, u, least)))).0
      | inr second ↦
          let (l, u, least) =
            starts-inside h true (x + m) hi behind y (h.size y) o.right
              (ground (arith, s, second)) in
          (same y (inr l)).0
    ]

    at :
        (y : ℕ)
        → (starts true lo before y (h.size y) || starts true (x + m) behind y (h.size y)) ≡ true
        → (starts true lo before y (g.size y) || starts true (x + m) behind y (g.size y)) ≡ true
    at y s =
        subst (λ n. (starts true lo before y n || starts true (x + m) behind y n) ≡ true)
          (sym (size-same y s)) s

-- A hole that leaves the index.
pub Opened-idx_remove :
    (e : ℕ) (h : Heap) (lo hi : ℕ) (before : List (ℕ × Bool)) (x m : ℕ) (behind : List (ℕ × Bool))
    → Opened h lo hi before x m behind
    → Opened (idx_remove e h) lo hi before x m behind
unfolding idx_remove
Opened-idx_remove e h lo hi before x m behind o = record {
  low = o.low;
  high = o.high;
  left = Laid-same h (idx_remove e h) lo x before (λ y l u. idx_remove-SameAt e h y) o.left;
  right = Laid-same h (idx_remove e h) (x + m) hi behind (λ y l u. idx_remove-SameAt e h y) o.right;
  distinct = remove_in-Distinct e h.index o.distinct;
  holes = λ y inside. o.holes y (ground (arith, inside, has-remove_in e y h.index o.distinct));
}

module _ (h : Heap) (lo hi : ℕ) where
  -- A range at a block in use.
  pub Formed-open :
      (before behind : List (ℕ × Bool)) (x m : ℕ)
      → Laid h lo x before
      → Formed h lo hi (before ++ (m, false) ∷ behind)
      → Laid h (x + m) hi behind
      → Opened h lo hi before x m behind
  Formed-open before behind x m left f right = record {
    low = f.low;
    high = f.high;
    left = left;
    right = right;
    distinct = f.distinct;
    holes = λ y inside. ground (
      arith,
      f.holes y inside,
      starts-append h true lo x before ((m, false) ∷ behind) y (h.size y) left,
    );
  }

  -- A range at a hole, which leaves the index.
  pub Formed-remove :
      (before behind : List (ℕ × Bool)) (x m : ℕ)
      → Laid h lo x before
      → Formed h lo hi (before ++ (m, true) ∷ behind)
      → Laid h (x + m) hi behind
      → Opened (idx_remove x h) lo hi before x m behind
  unfolding idx_remove
  Formed-remove before behind x m left f right = record {
    low = f.low;
    high = f.high;
    left = Laid-same h (idx_remove x h) lo x before (λ y l u. idx_remove-SameAt x h y) left;
    right = Laid-same h (idx_remove x h) (x + m) hi behind (λ y l u. idx_remove-SameAt x h y) right;
    distinct = remove_in-Distinct x h.index f.distinct;
    holes = λ y inside. ground (
      arith,
      f.holes y,
      inside,
      has-remove_in x y h.index f.distinct,
      starts-append h true lo x before ((m, true) ∷ behind) y (h.size y) left,
    );
  }

  -- The range becomes a block in use.
  pub Opened-use :
      (before : List (ℕ × Bool)) (x m : ℕ) (behind : List (ℕ × Bool))
      → Opened h lo hi before x m behind
      → Block x m h
      → h.is_hole x ≡ false
      → Formed h lo hi (before ++ (m, false) ∷ behind)
  Opened-use before x m behind o block used = record {
    low = o.low;
    high = o.high;
    laid = Laid-append h lo x hi before ((m, false) ∷ behind) o.left (block, used, o.right);
    distinct = o.distinct;
    holes = λ y inside. ground (
      arith,
      o.holes y inside,
      starts-append h true lo x before ((m, false) ∷ behind) y (h.size y) o.left,
    );
  }

  -- Its first bytes become a block in use.
  pub Opened-narrow :
      (before : List (ℕ × Bool)) (x m k : ℕ) (behind : List (ℕ × Bool))
      → Opened h lo hi before x m behind
      → Block x k h
      → h.is_hole x ≡ false
      → k ≤ m
      → Opened h lo hi (before ++ (k, false) ∷ []) (x + k) (m - k) behind
  Opened-narrow before x m k behind o block used le =
      let reach : x + m ≡ x + k + (m - k) = omega arith in
      record {
        low = o.low;
        high = o.high;
        left = Laid-append h lo x (x + k) before ((k, false) ∷ []) o.left (block, used, refl);
        right = subst (λ i. Laid h i hi behind) reach o.right;
        distinct = o.distinct;
        holes = λ y inside. ground (
          arith,
          o.holes y inside,
          reach,
          starts-append h true lo x before ((k, false) ∷ []) y (h.size y) o.left,
        );
      }

  -- The hole behind the range is added to it.
  pub Opened-widen :
      (before : List (ℕ × Bool)) (x m k : ℕ) (behind : List (ℕ × Bool))
      → Opened h lo hi before x m ((k, true) ∷ behind)
      → has (x + m) h.index ≡ false
      → Opened h lo hi before x (m + k) behind
  Opened-widen before x m k behind o out =
      let reach : x + m + k ≡ x + (m + k) = omega arith in
      record {
        low = o.low;
        high = o.high;
        left = o.left;
        right = subst (λ i. Laid h i hi behind) reach o.right.2;
        distinct = o.distinct;
        holes = λ y inside. ground (arith, o.holes y inside, inside, out, reach);
      }

  -- The hole before it is.
  pub Opened-widen_left :
      (before : List (ℕ × Bool)) (p k x m : ℕ) (behind : List (ℕ × Bool))
      → Opened h lo hi (before ++ (k, true) ∷ []) x m behind
      → Laid h lo p before
      → p + k ≡ x
      → has p h.index ≡ false
      → Opened h lo hi before p (k + m) behind
  Opened-widen_left before p k x m behind o first at out =
      let reach : x + m ≡ p + (k + m) = omega arith in
      record {
        low = o.low;
        high = o.high;
        left = first;
        right = subst (λ i. Laid h i hi behind) reach o.right;
        distinct = o.distinct;
        holes = λ y inside. ground (
          arith,
          o.holes y inside,
          inside,
          out,
          reach,
          starts-append h true lo p before ((k, true) ∷ []) y (h.size y) first,
        );
      }

  -- A range at the end of the heap, which ends elsewhere from now on.
  pub Opened-end :
      (before : List (ℕ × Bool)) (x m m' : ℕ)
      → Opened h lo hi before x m []
      → x + m' < u32
      → Opened h lo (x + m') before x m' []
  Opened-end before x m m' o fit = record {
    low = o.low;
    high = fit;
    left = o.left;
    right = refl;
    distinct = o.distinct;
    holes = o.holes;
  }

  -- The range behind the last block.
  pub Formed-end :
      (bs : List (ℕ × Bool)) (m : ℕ)
      → Formed h lo hi bs
      → hi + m < u32
      → Opened h lo (hi + m) bs hi m []
  Formed-end bs m f fit = record {
    low = f.low;
    high = fit;
    left = f.laid;
    right = refl;
    distinct = f.distinct;
    holes = λ y inside. ground (arith, f.holes y inside);
  }

  -- No address in the range is in the index.
  pub Opened-out :
      (before : List (ℕ × Bool)) (x m : ℕ) (behind : List (ℕ × Bool)) (y : ℕ)
      → Opened h lo hi before x m behind
      → x ≤ y
      → y < x + m
      → has y h.index ≡ false
  Opened-out before x m behind y o le lt = elim (Bool-cases (has y h.index)) [
    | inl inside ↦ elim (Bool-cases (starts true lo before y (h.size y))) [
      | inl first ↦
          absurd (omega (arith, starts-inside h true lo x before y (h.size y) o.left first))
      | inr other ↦ absurd (
          omega (
            arith,
            starts-inside h true (x + m) hi behind y (h.size y) o.right
                (ground (arith, o.holes y inside, other)),
          ))
    ]
    | inr outside ↦ outside
  ]

  -- The range becomes a hole, which enters the index if there is room.
  pub Opened-hole :
      (before : List (ℕ × Bool)) (x m : ℕ) (behind : List (ℕ × Bool))
      → Opened h lo hi before x m behind
      → Block x m h
      → h.is_hole x ≡ true
      → Formed (idx_insert x h) lo hi (before ++ (m, true) ∷ behind)
  unfolding idx_insert
  Opened-hole before x m behind o block hole = record {
    low = o.low;
    high = o.high;
    laid =
        Laid-same h (idx_insert x h) lo hi (before ++ (m, true) ∷ behind)
          (λ y l u. idx_insert-SameAt x h y)
          (Laid-append h lo x hi before ((m, true) ∷ behind) o.left (block, hole, o.right));
    distinct = ground (arith, o.distinct, insert_in-Distinct h.size x h.index out o.distinct);
    holes = λ y inside.
        subst (λ n. starts true lo (before ++ (m, true) ∷ behind) y n ≡ true)
          (sym (idx_insert-SameAt x h y).0)
          (ground (
            arith,
            o.holes y,
            has-idx_insert x y h inside,
            block.size,
            starts-append h true lo x before ((m, true) ∷ behind) y (h.size y) o.left,
          ));
  }
    where
      out : has x h.index ≡ false
      out = Opened-out before x m behind x o (omega arith) (omega (arith, block.least))
