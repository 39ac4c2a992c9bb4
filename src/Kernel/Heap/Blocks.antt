-- ===== src/Kernel/Heap/Blocks.antt =====
-- The blocks of the heap lie one behind the other, each with its header and its footer.
use grapes.Prelude.{
  ℕ, ◌+◌, ◌-◌, ◌≡◌, ◌<◌, ◌≤◌, ◌⊎◌, inl, inr, refl, sym, ap, ◌∙◌, Bool, true, false, ◌&&◌, ◌||◌, not,
  List, [], ◌∷◌, ◌++◌, ◌==◌, arith, Bool-cases,
}
use mathlib.Core.Path.{subst}
use grapes.Kernel.Heap.{Heap, heap_magic}

-- A header at `a`, and `n` bytes on the end of a footer that leads back to it.
pub record Block (a n : ℕ) (h : Heap) : Type 0 where
  pub least : 20 ≤ n
  pub size : h.size a ≡ n
  pub magic : h.magic a ≡ heap_magic
  pub header : h.header (a + n - 8) ≡ a
  pub footer_magic : h.footer_magic (a + n - 8) ≡ heap_magic

-- From `lo` to `hi`, block behind block, of these sizes, with `true` for a hole.
abbrev pub Laid : Heap → (lo hi : ℕ) → List (ℕ × Bool) → Type 0
Laid h lo hi [] = lo ≡ hi
Laid h lo hi ((n, b) ∷ bs) = Block lo n h × (h.is_hole lo ≡ b) × Laid h (lo + n) hi bs

abbrev pub agree : Bool → Bool → Bool
agree true b = b
agree false b = not b

agree-eq : (a b : Bool) → agree a b ≡ true → b ≡ a
agree-eq true b e = e
agree-eq false true e = absurd (cc)
agree-eq false false e = refl

-- A block of size `n`, which is a hole or not, starts at `x`.
abbrev pub starts : (hole : Bool) → (lo : ℕ) → List (ℕ × Bool) → (x n : ℕ) → Bool
starts hole lo [] x n = false
starts hole lo ((m, b) ∷ bs) x n =
    (agree hole b && ((lo == x) && (m == n))) || starts hole (lo + m) bs x n

-- What two heaps have at `x` is the same.
abbrev pub SameAt : Heap → Heap → ℕ → Type 0
SameAt h g x =
    (g.size x ≡ h.size x)
    × (g.magic x ≡ h.magic x)
    × (g.is_hole x ≡ h.is_hole x)
    × (g.header x ≡ h.header x)
    × (g.footer_magic x ≡ h.footer_magic x)

pub Laid-le : (h : Heap) (lo hi : ℕ) (bs : List (ℕ × Bool)) → Laid h lo hi bs → lo ≤ hi
Laid-le h lo hi [] e = omega arith
Laid-le h lo hi ((n, b) ∷ bs) (_, _, rest) = omega (arith, Laid-le h (lo + n) hi bs rest)

-- Blocks stay where the heap stays the same.
pub Laid-same :
    (h g : Heap) (lo hi : ℕ) (bs : List (ℕ × Bool))
    → ((x : ℕ) → lo ≤ x → x < hi → SameAt h g x)
    → Laid h lo hi bs
    → Laid g lo hi bs
Laid-same h g lo hi [] same e = e
Laid-same h g lo hi ((n, b) ∷ bs) same (block, hole, rest) =
    let le = Laid-le h (lo + n) hi bs rest in
    let (size, magic, is_hole, _, _) = same lo (omega arith) (omega (arith, le, block.least)) in
    let (_, _, _, header, footer_magic) =
      same (lo + n - 8) (omega (arith, block.least)) (omega (arith, le, block.least)) in
    (
      record {
        least = block.least;
        size = size ∙ block.size;
        magic = magic ∙ block.magic;
        header = header ∙ block.header;
        footer_magic = footer_magic ∙ block.footer_magic;
      },
      is_hole ∙ hole,
      Laid-same h g (lo + n) hi bs (λ x l u. same x (omega (arith, l)) u) rest,
    )

pub Laid-append :
    (h : Heap) (lo m hi : ℕ) (bs cs : List (ℕ × Bool))
    → Laid h lo m bs
    → Laid h m hi cs
    → Laid h lo hi (bs ++ cs)
Laid-append h lo m hi [] cs e l = subst (λ x. Laid h x hi cs) (sym e) l
Laid-append h lo m hi ((n, b) ∷ bs) cs (block, hole, rest) l =
    (block, hole, Laid-append h (lo + n) m hi bs cs rest l)

pub starts-append :
    (h : Heap) (hole : Bool) (lo m : ℕ) (bs cs : List (ℕ × Bool)) (x n : ℕ)
    → Laid h lo m bs
    → starts hole lo (bs ++ cs) x n ≡ (starts hole lo bs x n || starts hole m cs x n)
starts-append h hole lo m [] cs x n e = rw e refl
starts-append h hole lo m ((k, b) ∷ bs) cs x n (block, is, rest) =
    ground (arith, starts-append h hole (lo + k) m bs cs x n rest)

-- A block starts within the range, and has room for a header and a footer.
pub starts-inside :
    (h : Heap) (hole : Bool) (lo hi : ℕ) (bs : List (ℕ × Bool)) (x n : ℕ)
    → Laid h lo hi bs
    → starts hole lo bs x n ≡ true
    → (lo ≤ x) × (x + n ≤ hi) × (20 ≤ n)
starts-inside h hole lo hi [] x n e s = absurd (cc)
starts-inside h hole lo hi ((k, b) ∷ bs) x n (block, is, rest) s =
    let le = Laid-le h (lo + k) hi bs rest in
    elim (Bool-cases (agree hole b && ((lo == x) && (k == n)))) [
      | inl here ↦
          (ground (arith, here), ground (arith, here, le), ground (arith, here, block.least))
      | inr later ↦
          let (l, u, least) =
            starts-inside h hole (lo + k) hi bs x n rest (ground (arith, later, s)) in
          (omega (arith, l), u, least)
    ]

-- The blocks before and behind one that starts at `x`.
pub record Around (hole : Bool) (h : Heap) (lo hi : ℕ) (bs : List (ℕ × Bool)) (x n : ℕ)
    : Type 0 where
  pub before : List (ℕ × Bool)
  pub behind : List (ℕ × Bool)
  pub parts : bs ≡ before ++ (n, hole) ∷ behind
  pub left : Laid h lo x before
  pub block : Block x n h
  pub is_hole : h.is_hole x ≡ hole
  pub right : Laid h (x + n) hi behind

pub starts-Around :
    (h : Heap) (hole : Bool) (lo hi : ℕ) (bs : List (ℕ × Bool)) (x n : ℕ)
    → Laid h lo hi bs
    → starts hole lo bs x n ≡ true
    → Around hole h lo hi bs x n
starts-Around h hole lo hi [] x n e s = absurd (cc)
starts-Around h hole lo hi ((k, b) ∷ bs) x n (block, is, rest) s =
    elim (Bool-cases (agree hole b && ((lo == x) && (k == n)))) [
      | inl here ↦
          let at : lo ≡ x = ground (arith, here) in
          let whole : k ≡ n = ground (arith, here) in
          let kind : b ≡ hole = agree-eq hole b (ground (arith, here)) in
          record {
            before = [];
            behind = bs;
            parts = ap (λ c. (k, c) ∷ bs) kind ∙ ap (λ i. (i, hole) ∷ bs) whole;
            left = at;
            block = subst (λ i. Block i n h) at (subst (λ i. Block lo i h) whole block);
            is_hole = subst (λ i. h.is_hole i ≡ hole) at (is ∙ kind);
            right = subst (λ i. Laid h i hi bs) (ground arith) rest;
          }
      | inr later ↦
          let a = starts-Around h hole (lo + k) hi bs x n rest (ground (arith, later, s)) in
          record {
            before = (k, b) ∷ a.before;
            behind = a.behind;
            parts = ap (λ xs. (k, b) ∷ xs) a.parts;
            left = (block, is, a.left);
            block = a.block;
            is_hole = a.is_hole;
            right = a.right;
          }
    ]

-- The last block of a row that ends at `x`.
pub record Last (h : Heap) (lo x : ℕ) (bs : List (ℕ × Bool)) : Type 0 where
  pub init : List (ℕ × Bool)
  pub at : ℕ
  pub size : ℕ
  pub hole : Bool
  pub parts : bs ≡ init ++ (size, hole) ∷ []
  pub left : Laid h lo at init
  pub block : Block at size h
  pub is_hole : h.is_hole at ≡ hole
  pub stop : at + size ≡ x

-- A row is empty or has a last block.
pub Laid-Last :
    (h : Heap) (lo x : ℕ) (bs : List (ℕ × Bool))
    → Laid h lo x bs
    → ((bs ≡ []) × (lo ≡ x)) ⊎ Last h lo x bs
Laid-Last h lo x [] e = inl (refl, e)
Laid-Last h lo x ((k, b) ∷ bs) (block, is, rest) = elim (Laid-Last h (lo + k) x bs rest) [
  | inl (none_left, stop) ↦ inr (record {
    init = [];
    at = lo;
    size = k;
    hole = b;
    parts = ap (λ xs. (k, b) ∷ xs) none_left;
    left = refl;
    block = block;
    is_hole = is;
    stop = stop;
  })
  | inr l ↦ inr (record {
    init = (k, b) ∷ l.init;
    at = l.at;
    size = l.size;
    hole = l.hole;
    parts = ap (λ xs. (k, b) ∷ xs) l.parts;
    left = (block, is, l.left);
    block = l.block;
    is_hole = l.is_hole;
    stop = l.stop;
  })
]
