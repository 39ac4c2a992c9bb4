-- ===== src/Kernel/Heap/Join.antt =====
-- The block that `heap_free` frees is joined with the holes on both of its sides.
use grapes.Prelude.{
  ℕ, ◌+◌, ◌-◌, ◌≡◌, ◌≢◌, ◌≤◌, inl, inr, refl, sym, ap, ◌∙◌, Bool, true, false, ◌||◌, List, [], ◌∷◌,
  ◌++◌, ◌==◌, if◌then◌else◌, arith, Bool-cases, ◌<◌,
}
use grapes.Word.{add32, sub32}
use mathlib.Core.Path.{subst}
use grapes.Kernel.Heap.{Heap, heap_magic, idx_remove, unify_left, unify_right, stretch}
use grapes.Kernel.Heap.Blocks.{
  Block, Laid, starts, Laid-le, Laid-same, starts-append, Last, Laid-Last,
}
use grapes.Kernel.Heap.Opened.{
  Opened, Opened-same, Opened-idx_remove, Opened-widen, Opened-widen_left, idx_remove-SameAt,
  has-idx_remove,
}

-- One block, from `header` to its `footer`, apart from the others; `used` are the others in use.
pub record Apart (h : Heap) (lo hi header footer : ℕ) (used : ℕ → ℕ → Bool) : Type 0 where
  pub before : List (ℕ × Bool)
  pub size : ℕ
  pub behind : List (ℕ × Bool)
  pub opened : Opened h lo hi before header size behind
  pub block : Block header size h
  pub stop : footer ≡ header + size - 8
  pub same :
      (x n : ℕ) → (starts false lo before x n || starts false (header + size) behind x n) ≡ used x n

other : (v : ℕ) → v ≢ heap_magic → (v == heap_magic) ≡ false
other v ne = ground (arith, ne)

module _ (h : Heap) (lo hi : ℕ) (used : ℕ → ℕ → Bool) where
  merge_left :
      (init : List (ℕ × Bool)) (p k x m : ℕ) (behind : List (ℕ × Bool))
      → Opened h lo hi (init ++ (k, true) ∷ []) x m behind
      → Laid h lo p init
      → Block p k h
      → Block x m h
      → p + k ≡ x
      → ((y n : ℕ)
          → (starts false lo (init ++ (k, true) ∷ []) y n || starts false (x + m) behind y n)
            ≡ used y n)
      → Apart (stretch p (x + m - 8) (idx_remove p h)) lo hi p (x + m - 8) used
  unfolding idx_remove
  merge_left init p k x m behind o left prev block at same =
      let le = Laid-le h (x + m) hi behind o.right in
      let reach : x + m ≡ p + (k + m) = omega arith in
      let wide : add32 (sub32 (x + m - 8) p) 8 ≡ k + m =
        ground (arith, o.high, le, prev.least, block.least) in
      record {
        before = init;
        size = k + m;
        behind = behind;
        opened =
            Opened-same (idx_remove p h) (stretch p (x + m - 8) (idx_remove p h)) lo hi init p
              (k + m) behind refl
              (λ y out. (
                ground (arith, prev.least, block.least),
                refl,
                refl,
                ground (arith, prev.least, block.least),
                refl,
              ))
              (Opened-widen_left (idx_remove p h) lo hi init p k x m behind
                (Opened-idx_remove p h lo hi (init ++ (k, true) ∷ []) x m behind o)
                (Laid-same h (idx_remove p h) lo p init (λ y l u. idx_remove-SameAt p h y) left) at
                (has-idx_remove p h o.distinct));
        block = record {
          least = omega (arith, prev.least);
          size = ground (arith, wide);
          magic = prev.magic;
          header = ground (arith, reach);
          footer_magic = subst (λ i. h.footer_magic (i - 8) ≡ heap_magic) reach block.footer_magic;
        };
        stop = omega arith;
        same = λ y n.
            ground
              (arith, same y n, reach, starts-append h false lo p init ((k, true) ∷ []) y n left);
      }

  pub unify_left-Apart :
      (header footer : ℕ)
      → Apart h lo hi header footer used
      → h.footer_magic (lo - 8) ≢ heap_magic
      → Apart (unify_left header footer h).1 lo hi (unify_left header footer h).0 footer used
  unfolding unify_left
  unify_left-Apart header footer a ne = elim (Laid-Last h lo header a.before a.opened.left) [
    | inl (none_left, here) ↦
        let at : sub32 header 8 ≡ lo - 8 = ground (arith, a.opened.low, a.opened.high, inside) in
        rw (at, other (h.footer_magic (lo - 8)) ne) a
    | inr l ↦
        let at : sub32 header 8 ≡ l.at + l.size - 8 =
          ground (arith, l.stop, a.opened.low, a.opened.high, inside, l.block.least) in
        elim (Bool-cases l.hole) [
          | inl hole ↦
              rw (at, l.block.header, l.block.footer_magic, l.is_hole, hole) (joined l hole)
          | inr busy ↦ rw (at, l.block.header, l.block.footer_magic, l.is_hole, busy) a
        ]
  ]
    where
      joined :
          (l : Last h lo header a.before)
          → l.hole ≡ true
          → Apart (stretch l.at footer (idx_remove l.at h)) lo hi l.at footer used
      joined l hole =
          let parts = l.parts ∙ ap (λ c. l.init ++ (l.size, c) ∷ []) hole in
          subst (λ f. Apart (stretch l.at f (idx_remove l.at h)) lo hi l.at f used) (sym a.stop)
            (merge_left l.init l.at l.size header a.size a.behind
              (subst (λ bs. Opened h lo hi bs header a.size a.behind) parts a.opened) l.left l.block
              a.block l.stop
              λ y n.
                ap (λ bs. starts false lo bs y n || starts false (header + a.size) a.behind y n)
                  (sym parts)
                ∙ a.same y n)

      inside : header + a.size ≤ hi
      inside = Laid-le h (header + a.size) hi a.behind a.opened.right

  merge_right :
      (before : List (ℕ × Bool)) (x m k : ℕ) (behind : List (ℕ × Bool))
      → Opened h lo hi before x m ((k, true) ∷ behind)
      → Block x m h
      → ((y n : ℕ)
          → (starts false lo before y n || starts false (x + m) ((k, true) ∷ behind) y n)
            ≡ used y n)
      → Apart (stretch x (x + m - 8 + k) (idx_remove (x + m) h)) lo hi x (x + m - 8 + k) used
  unfolding idx_remove
  merge_right before x m k behind o block same =
      let next = o.right.0 in
      let le = Laid-le h (x + m + k) hi behind o.right.2 in
      let reach : x + m + k ≡ x + (m + k) = omega arith in
      let foot : x + m + k - 8 ≡ x + m - 8 + k = omega (arith, block.least) in
      let wide : add32 (sub32 (x + m - 8 + k) x) 8 ≡ m + k =
        ground (arith, o.high, le, next.least, block.least) in
      record {
        before = before;
        size = m + k;
        behind = behind;
        opened =
            Opened-same (idx_remove (x + m) h) (stretch x (x + m - 8 + k) (idx_remove (x + m) h)) lo
              hi before x (m + k) behind refl
              (λ y out. (
                ground (arith, next.least, block.least),
                refl,
                refl,
                ground (arith, next.least, block.least),
                refl,
              ))
              (Opened-widen (idx_remove (x + m) h) lo hi before x m k behind
                (Opened-idx_remove (x + m) h lo hi before x m ((k, true) ∷ behind) o)
                (has-idx_remove (x + m) h o.distinct));
        block = record {
          least = omega (arith, block.least);
          size = ground (arith, wide);
          magic = block.magic;
          header = ground (arith, block.least);
          footer_magic =
              subst (λ i. h.footer_magic i ≡ heap_magic) (omega (arith, block.least))
                next.footer_magic;
        };
        stop = omega (arith, block.least);
        same = λ y n. ground (arith, same y n, reach);
      }

  right_of :
      (before : List (ℕ × Bool)) (x m : ℕ) (behind : List (ℕ × Bool))
      → Opened h lo hi before x m behind
      → Block x m h
      → ((y n : ℕ) → (starts false lo before y n || starts false (x + m) behind y n) ≡ used y n)
      → x + m < hi
      → Apart (unify_right x (x + m - 8) h).1 lo hi x (unify_right x (x + m - 8) h).0 used
  unfolding unify_right
  right_of before x m [] o block same inner = absurd (omega (arith, o.right, inner))
  right_of before x m ((k, hole) ∷ behind) o block same inner =
      let le = Laid-le h (x + m + k) hi behind o.right.2 in
      let next = o.right.0 in
      let at : add32 (x + m - 8) 8 ≡ x + m = ground (arith, le, o.high, block.least) in
      let stop : add32 (x + m - 8) k ≡ x + m - 8 + k = ground (arith, le, o.high, block.least) in
      rw (at, next.magic, o.right.1, next.size, stop) (by_kind hole refl)
    where
      by_kind :
          (b : Bool)
          → b ≡ hole
          → let at = x + m - 8 + k in
            let r : ℕ × Heap =
              if b then (at, stretch x at (idx_remove (x + m) h)) else (x + m - 8, h) in
            Apart r.1 lo hi x r.0 used
      by_kind true e =
          merge_right before x m k behind
            (subst (λ c. Opened h lo hi before x m ((k, c) ∷ behind)) (sym e) o) block
            (λ y n.
              subst
                (λ c.
                  (starts false lo before y n || starts false (x + m) ((k, c) ∷ behind) y n)
                  ≡ used y n)
                (sym e) (same y n))
      by_kind false e = record {
        before = before;
        size = m;
        behind = (k, hole) ∷ behind;
        opened = o;
        block = block;
        stop = refl;
        same = same;
      }

  pub unify_right-Apart :
      (header footer : ℕ)
      → Apart h lo hi header footer used
      → footer + 8 < hi
      → Apart (unify_right header footer h).1 lo hi header (unify_right header footer h).0 used
  unify_right-Apart header footer a inner =
      subst (λ f. Apart (unify_right header f h).1 lo hi header (unify_right header f h).0 used)
        (sym a.stop)
        (right_of a.before header a.size a.behind a.opened a.block a.same
          (omega (arith, a.stop, a.block.least, inner)))
