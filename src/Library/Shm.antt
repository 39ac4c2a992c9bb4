-- ===== src/Library/Shm.antt =====
-- src/library/gc/shm.c: the manager of the address range for shared memory segments. The doubly
-- linked list of blocks is a list; a block pointer is a position in it. `tMutex` makes each call
-- one step. A list node is taken from `malloc`, which is taken to succeed.
use grapes.Prelude.{
  ℕ, zero, suc, ◌+◌, ◌-◌, ◌%◌, Bool, true, false, ◌&&◌, Option, none, some, List, [], ◌∷◌, ltb, leb,
  ◌==◌, if◌then◌else◌,
}
use grapes.Word.{add32, page_up}
pub mod Tiling
pub mod Alloc
pub mod Ownership
pub mod Release
pub mod RoundTrip
mod Tests

-- `struct shm_block`; the links are the order in the list
pub record Block : Type 0 where
  pub start : ℕ
  pub size : ℕ
  pub is_hole : Bool

abbrev pub block : ℕ → ℕ → Bool → Block
block a n h = record { start = a; size = n; is_hole = h }

abbrev pub area_start : ℕ
area_start = 0x80000000

abbrev pub area_end : ℕ
area_end = 0xD0000000

-- `shm_init`
unfoldable pub init : List Block
init = block area_start (area_end - area_start) true ∷ []

-- `if (blocks == 0) shm_init();`
unfoldable pub ready : List Block → List Block
unfolding init
ready [] = init
ready (b ∷ bs) = b ∷ bs

-- position and size of the candidate `block` of the search
abbrev pub Candidate : Type 0
Candidate = Option (ℕ × ℕ)

-- `block == 0 || i->size < block->size`
abbrev pub closer : ℕ → Candidate → Bool
closer n none = true
closer n (some (k, m)) = ltb n m

-- the `while (i)` of `shm_alloc`: the hole of the closest size
unfoldable pub best_fit : ℕ → List Block → ℕ → Candidate → Candidate
best_fit size [] i c = c
best_fit size (b ∷ bs) i c =
    best_fit size bs (i + 1)
      (if leb size b.size && b.is_hole && closer b.size c then some (i, b.size) else c)

-- the block itself is shortened, and what is left becomes a hole behind it
unfoldable pub take_block : ℕ → Block → List Block → List Block
take_block size b bs =
    if ltb size b.size
    then block b.start size false ∷ block (add32 b.start size) (b.size - size) true ∷ bs
    else block b.start b.size false ∷ bs

-- takes the block at a position, and returns its start
unfoldable pub take_at : ℕ → ℕ → List Block → ℕ × List Block
unfolding take_block
take_at size k [] = (0, [])
take_at size zero (b ∷ bs) = (b.start, take_block size b bs)
take_at size (suc k) (b ∷ bs) = let (p, rest) = take_at size k bs in (p, b ∷ rest)

-- `shm_alloc`: the address (0 for none) and the new blocks
unfoldable pub alloc : ℕ → List Block → ℕ × List Block
unfolding ready best_fit take_at
alloc n blocks =
    let size = page_up n in
    let bs = ready blocks in
    elim (best_fit size bs 0 none) [ none ↦ (0, bs) | some (k, m) ↦ take_at size k bs ]

-- `unify`, at the first of the blocks
unfoldable pub unify : List Block → List Block
unify [] = []
unify (b ∷ []) = b ∷ []
unify (b ∷ n ∷ bs) =
    if b.is_hole && n.is_hole then record b { size = add32 b.size n.size } ∷ bs else b ∷ n ∷ bs

-- marks a block as a hole and joins it with the next
unfoldable pub release : Block → List Block → List Block
unfolding unify
release b bs = unify (block b.start b.size true ∷ bs)

-- The search of `shm_free` behind a block `prev`. What `unify` checks again is left to it.
unfoldable pub free_after : ℕ → Block → List Block → List Block
unfolding release
free_after p prev [] = prev ∷ []
free_after p prev (b ∷ bs) =
    if b.start == p then unify (prev ∷ release b bs) else prev ∷ free_after p b bs

-- `shm_free`
unfoldable pub free : ℕ → List Block → List Block
unfolding release free_after
free p [] = []
free p (b ∷ bs) = if b.start == p then release b bs else free_after p b bs
