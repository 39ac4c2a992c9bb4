-- ===== src/Kernel/Heap/Take.antt =====
-- `heap_alloc` takes a block out of the hole that it has found, and makes a hole of the rest.
use grapes.Prelude.{
  ℕ, ◌+◌, ◌-◌, ◌≡◌, ◌<◌, ◌≤◌, ◌⊎◌, inl, inr, refl, sym, ap, ◌∙◌, Bool, true, false, ◌&&◌, ◌||◌,
  List, [], ◌∷◌, ◌++◌, ◌==◌, arith, Bool-cases, ltb,
}
use grapes.Prelude.Pointers.{null, has, update}
use grapes.Word.{u32, add32, sub32}
use mathlib.Core.Path.{subst}
use mathlib.Core.List.{append_assoc}
use grapes.Kernel.Heap.{Heap, heap_magic, idx_insert, idx_remove, take_hole, remove_in}
use grapes.Kernel.Heap.Blocks.{
  Block, Laid, starts, Laid-le, starts-append, starts-inside, starts-Around,
}
use grapes.Kernel.Heap.Opened.{
  Formed, Opened, Opened-same, Formed-remove, Opened-use, Opened-narrow, Opened-hole,
}

-- The block at `loc` is in use from now on, with room enough; the others in use are those of before.
pub record Taken (loc need lo hi : ℕ) (bs : List (ℕ × Bool)) (h : Heap) : Type 0 where
  pub blocks : List (ℕ × Bool)
  pub formed : Formed h lo hi blocks
  pub size : ℕ
  pub enough : need ≤ size
  pub fresh : (n : ℕ) → starts false lo bs loc n ≡ false
  pub used :
      (x n : ℕ)
      → starts false lo blocks x n ≡ (starts false lo bs x n || ((loc == x) && (size == n)))

-- The hole as a block in use.
abbrev whole : (loc : ℕ) → Heap → Heap
whole loc h = record h { index = remove_in loc h.index; is_hole = update h.is_hole loc false }

-- Its first `need` of `n` bytes as such, and the rest as a hole that is not in the index.
abbrev divided : (loc need n : ℕ) → Heap → Heap
divided loc need n h = record h {
  index = remove_in loc h.index;
  size = update (update h.size loc need) (loc + need) (n - need);
  magic = update h.magic (loc + need) heap_magic;
  is_hole = update (update h.is_hole loc false) (loc + need) true;
  header = update (update h.header (loc + need - 8) loc) (loc + n - 8) (loc + need);
  footer_magic =
      update (update h.footer_magic (loc + need - 8) heap_magic) (loc + n - 8) heap_magic;
}

module _ (loc need : ℕ) (h : Heap) (least : 20 ≤ need) (fit : loc + h.size loc < u32)
    (le : need ≤ h.size loc) where
  take_hole-whole :
      ltb (add32 need 20) (h.size loc) ≡ false → take_hole loc need h ≡ (loc + 12, whole loc h)
  unfolding take_hole idx_remove
  take_hole-whole small = rw small (ap (λ a. (a, whole loc h)) (omega arith))

  take_hole-divided :
      ltb (add32 need 20) (h.size loc) ≡ true
      → take_hole loc need h ≡ (loc + 12, idx_insert (loc + need) (divided loc need (h.size loc) h))
  unfolding take_hole idx_remove
  take_hole-divided big =
      let n = h.size loc in
      let ptr : add32 loc 12 ≡ loc + 12 = ground arith in
      let next : add32 loc need ≡ loc + need = omega arith in
      let finish : add32 loc n ≡ loc + n = omega arith in
      let foot : sub32 (loc + n) 8 ≡ loc + n - 8 = omega arith in
      let middle : sub32 (loc + need) 8 ≡ loc + need - 8 = omega arith in
      let gap : add32 (sub32 (loc + n - 8) (loc + need)) 8 ≡ n - need = ground arith in
      rw (big, ptr, next, finish, foot, middle, gap) refl

module _ (loc need lo hi : ℕ) (h : Heap) (before behind : List (ℕ × Bool))
    (f : Formed h lo hi (before ++ (h.size loc, true) ∷ behind)) (left : Laid h lo loc before)
    (block : Block loc (h.size loc) h) (right : Laid h (loc + h.size loc) hi behind)
    (least : 20 ≤ need) (le : need ≤ h.size loc) where
  abbrev n : ℕ
  n = h.size loc

  abbrev g : Heap
  g = divided loc need n h

  open_hole : Opened (idx_remove loc h) lo hi before loc n behind
  open_hole = Formed-remove h lo hi before behind loc n left f right

  whole-Formed : Formed (whole loc h) lo hi (before ++ (n, false) ∷ behind)
  unfolding idx_remove
  whole-Formed =
      Opened-use (whole loc h) lo hi before loc n behind
        (Opened-same (idx_remove loc h) (whole loc h) lo hi before loc n behind refl
          (λ y out. (refl, refl, ground (arith, block.least), refl, refl)) open_hole)
        (record {
          least = block.least;
          size = refl;
          magic = block.magic;
          header = block.header;
          footer_magic = block.footer_magic;
        })
        (ground arith)

  divided-Formed :
      need + 20 < n
      → Formed
          (idx_insert (loc + need) (divided loc need n h))
          lo
          hi
          ((before ++ (need, false) ∷ []) ++ (n - need, true) ∷ behind)
  unfolding idx_remove
  divided-Formed big =
      Opened-hole g lo hi (before ++ (need, false) ∷ []) (loc + need) (n - need) behind
        (Opened-narrow g lo hi before loc n need behind
          (Opened-same (idx_remove loc h) g lo hi before loc n behind refl
            (λ y out. (ground arith, ground arith, ground arith, ground arith, ground arith))
            open_hole)
          (record {
            least = least;
            size = ground arith;
            magic = ground (arith, block.magic);
            header = ground arith;
            footer_magic = ground arith;
          })
          (ground arith) le)
        (record {
          least = omega arith;
          size = ground arith;
          magic = ground arith;
          header = ground arith;
          footer_magic = ground arith;
        })
        (ground arith)

  not_used : (k : ℕ) → starts false lo (before ++ (n, true) ∷ behind) loc k ≡ false
  not_used k = ground (
    arith,
    starts-append h false lo loc before ((n, true) ∷ behind) loc k left,
    starts-inside h false lo loc before loc k left,
    starts-inside h false (loc + n) hi behind loc k right,
    block.least,
  )

  taken : Taken loc need lo hi (before ++ (n, true) ∷ behind) (take_hole loc need h).1
  taken =
      let end_le = Laid-le h (loc + n) hi behind right in
      let lo_le = Laid-le h lo loc before left in
      let fit : loc + n < u32 = omega (arith, end_le, f.high) in
      elim (Bool-cases (ltb (add32 need 20) n)) [
        | inl big ↦ rw (take_hole-divided loc need h least fit le big) (record {
          blocks = before ++ (need, false) ∷ (n - need, true) ∷ behind;
          formed =
              subst (Formed (idx_insert (loc + need) g) lo hi)
                (append_assoc before ((need, false) ∷ []) ((n - need, true) ∷ behind))
                (divided-Formed (ground (arith, big, fit, lo_le, f.low)));
          size = need;
          enough = omega arith;
          fresh = not_used;
          used = λ x k. ground (
            arith,
            starts-append h false lo loc before ((need, false) ∷ (n - need, true) ∷ behind) x k
                left,
            starts-append h false lo loc before ((n, true) ∷ behind) x k left,
          );
        })
        | inr small ↦ rw (take_hole-whole loc need h least fit le small) (record {
          blocks = before ++ (n, false) ∷ behind;
          formed = whole-Formed;
          size = n;
          enough = le;
          fresh = not_used;
          used = λ x k. ground (
            arith,
            starts-append h false lo loc before ((n, false) ∷ behind) x k left,
            starts-append h false lo loc before ((n, true) ∷ behind) x k left,
          );
        })
      ]

-- Taking a block out of a hole of the index, in a well-formed heap.
pub take_hole-Taken :
    (loc need lo hi : ℕ) (h : Heap) (bs : List (ℕ × Bool))
    → Formed h lo hi bs
    → has loc h.index ≡ true
    → 20 ≤ need
    → need ≤ h.size loc
    → Taken loc need lo hi bs (take_hole loc need h).1
take_hole-Taken loc need lo hi h bs f inside least le =
    let a = starts-Around h true lo hi bs loc (h.size loc) f.laid (f.holes loc inside) in
    subst (λ xs. Taken loc need lo hi xs (take_hole loc need h).1) (sym a.parts)
      (taken loc need lo hi h a.before a.behind (subst (Formed h lo hi) a.parts f) a.left a.block
        a.right least le)

pub take_hole-ptr : (loc need : ℕ) (h : Heap) → (take_hole loc need h).0 ≡ add32 loc 12
unfolding take_hole
take_hole-ptr loc need h = ground arith

-- Null, and the same blocks in use; or the address behind the header of a block that was not in
-- use, with `sz` bytes between its header and its footer.
abbrev pub Allocated : (lo sz p : ℕ) (bs bs' : List (ℕ × Bool)) → Type 0
Allocated lo sz p bs bs' =
    ((p ≡ null) × ((x n : ℕ) → starts false lo bs' x n ≡ starts false lo bs x n))
    ⊎ ((loc : ℕ) × (n : ℕ) × (p ≡ loc + 12)
        × (sz + 20 ≤ n)
        × ((k : ℕ) → starts false lo bs loc k ≡ false)
        × ((x k : ℕ)
            → starts false lo bs' x k ≡ (starts false lo bs x k || ((loc == x) && (n == k)))))

-- The same in terms of blocks of which the same were in use.
pub Allocated-same :
    (lo sz p : ℕ) (bs cs bs' : List (ℕ × Bool))
    → ((x n : ℕ) → starts false lo cs x n ≡ starts false lo bs x n)
    → Allocated lo sz p cs bs'
    → Allocated lo sz p bs bs'
Allocated-same lo sz p bs cs bs' same a = elim a [
  | inl (e, u) ↦ inl (e, λ x n. u x n ∙ same x n)
  | inr (loc, n, at, room, fresh, u) ↦
      inr
        (loc, n, at, room, λ k. sym (same loc k) ∙ fresh k, λ x k. ground (arith, u x k, same x k))
]
