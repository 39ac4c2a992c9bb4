-- ===== src/Kernel/Heap/Free.antt =====
-- What `heap_free` does before it thinks of giving pages back: the block and the holes beside it
-- become one hole.
use grapes.Prelude.{
  ℕ, ◌+◌, ◌-◌, ◌≡◌, ◌≢◌, inl, inr, refl, sym, ap, ◌∙◌, Bool, true, false, ◌&&◌, ◌||◌, not, List,
  ◌∷◌, ◌++◌, ◌==◌, arith, Bool-cases, ◌<◌,
}
use grapes.Prelude.Pointers.{update}
use mathlib.Core.Path.{subst}
use grapes.Kernel.Heap.{Heap, heap_magic, idx_insert, unify_left, unify_right}
use grapes.Kernel.Heap.Blocks.{starts, starts-append, starts-inside, starts-Around, Around}
use grapes.Kernel.Heap.Opened.{Formed, Opened-same, Formed-open, Opened-hole, idx_insert-SameAt}
use grapes.Kernel.Heap.Join.{Apart, unify_left-Apart, unify_right-Apart}

-- The hole from `header` to `footer`, in whose place there was the block at `start`; the other
-- blocks in use are those of before.
pub record Freed (start lo hi : ℕ) (bs : List (ℕ × Bool)) (header footer : ℕ) (h : Heap)
    : Type 0 where
  pub blocks : List (ℕ × Bool)
  pub formed : Formed h lo hi blocks
  pub hole : starts true lo blocks header (h.size header) ≡ true
  pub stop : footer ≡ header + h.size header - 8
  pub used : (x n : ℕ) → starts false lo blocks x n ≡ (starts false lo bs x n && not (start == x))

-- What the last lines of `heap_free` make of the joined block.
abbrev pub close : (header : ℕ) → Heap → Heap
close header h = idx_insert header (record h { is_hole = update h.is_hole header true })

close-Freed :
    (start lo hi header footer : ℕ) (bs : List (ℕ × Bool)) (h : Heap)
    → Apart h lo hi header footer (λ x n. starts false lo bs x n && not (start == x))
    → Freed start lo hi bs header footer (close header h)
close-Freed start lo hi header footer bs h a = record {
  blocks = a.before ++ (a.size, true) ∷ a.behind;
  formed =
      Opened-hole g lo hi a.before header a.size a.behind
        (Opened-same h g lo hi a.before header a.size a.behind refl
          (λ y out. (refl, refl, ground (arith, a.block.least), refl, refl)) a.opened)
        (record {
          least = a.block.least;
          size = a.block.size;
          magic = a.block.magic;
          header = a.block.header;
          footer_magic = a.block.footer_magic;
        })
        (ground arith);
  hole =
      subst (λ n. starts true lo (a.before ++ (a.size, true) ∷ a.behind) header n ≡ true) (sym size)
        (ground (
          arith,
          starts-append h true lo header a.before ((a.size, true) ∷ a.behind) header a.size
              a.opened.left,
        ));
  stop = a.stop ∙ ap (λ n. header + n - 8) (sym size);
  used = λ x n. ground (
    arith,
    a.same x n,
    starts-append h false lo header a.before ((a.size, true) ∷ a.behind) x n a.opened.left,
  );
}
  where
    g : Heap
    g = record h { is_hole = update h.is_hole header true }

    size : (close header h).size header ≡ a.size
    size = (idx_insert-SameAt header g header).0 ∙ a.block.size

-- A block in use, taken out of its row.
used-Apart :
    (start lo hi n : ℕ) (bs : List (ℕ × Bool)) (h : Heap)
    → Formed h lo hi bs
    → starts false lo bs start n ≡ true
    → Apart h lo hi start (start + n - 8) (λ x k. starts false lo bs x k && not (start == x))
used-Apart start lo hi n bs h f s =
    let a : Around false h lo hi bs start n = starts-Around h false lo hi bs start n f.laid s in
    record {
      before = a.before;
      size = n;
      behind = a.behind;
      opened =
          Formed-open h lo hi a.before a.behind start n a.left (subst (Formed h lo hi) a.parts f)
            a.right;
      block = a.block;
      stop = refl;
      same = λ x k.
          apart a x k (starts-append h false lo start a.before ((n, false) ∷ a.behind) x k a.left)
            (ap (λ xs. starts false lo xs x k) a.parts);
    }
  where
    apart :
        (a : Around false h lo hi bs start n) (x k : ℕ)
        → starts false lo (a.before ++ (n, false) ∷ a.behind) x k
          ≡ (starts false lo a.before x k || starts false start ((n, false) ∷ a.behind) x k)
        → starts false lo bs x k ≡ starts false lo (a.before ++ (n, false) ∷ a.behind) x k
        → (starts false lo a.before x k || starts false (start + n) a.behind x k)
          ≡ (starts false lo bs x k && not (start == x))
    apart a x k split all = elim (Bool-cases (starts false lo a.before x k)) [
      | inl first ↦ ground (arith, starts-inside h false lo start a.before x k a.left first)
      | inr other ↦ elim (Bool-cases (starts false (start + n) a.behind x k)) [
        | inl second ↦
            ground (
              arith,
              starts-inside h false (start + n) hi a.behind x k a.right second,
              a.block.least,
            )
        | inr neither ↦ ground arith
      ]
    ]

-- Freeing a block in use and not the last of a well-formed heap, when what lies before the heap does
-- not look like a footer.
pub free-Freed :
    (start lo hi n : ℕ) (bs : List (ℕ × Bool)) (h : Heap)
    → Formed h lo hi bs
    → starts false lo bs start n ≡ true
    → h.footer_magic (lo - 8) ≢ heap_magic
    → start + n < hi
    → let l = unify_left start (start + n - 8) h in
      let r = unify_right l.0 (start + n - 8) l.1 in Freed start lo hi bs l.0 r.0 (close l.0 r.1)
free-Freed start lo hi n bs h f s below inner =
    let (_, _, least) = starts-inside h false lo hi bs start n f.laid s in
    let used = λ (x k : ℕ). starts false lo bs x k && not (start == x) in
    let l = unify_left start (start + n - 8) h in
    let r = unify_right l.0 (start + n - 8) l.1 in
    close-Freed start lo hi l.0 r.0 bs r.1 (
      unify_right-Apart l.1 lo hi used l.0 (start + n - 8)
        (unify_left-Apart h lo hi used start (start + n - 8) (used-Apart start lo hi n bs h f s)
          below)
        (omega (arith, least, inner)))
