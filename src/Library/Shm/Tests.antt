-- ===== src/Library/Shm/Tests.antt =====
-- Runs of the shared memory manager, and its theorems at concrete blocks.
use grapes.Prelude.{
  ℕ, ◌+◌, ◌%◌, ◌≤◌, ◌≡◌, refl, true, false, none, some, List, [], ◌∷◌, arith, ◌⊎◌, if◌then◌else◌,
}
use grapes.Word.{page_size}
use grapes.Library.Shm.{Block, block, area_start, area_end, ready, alloc, free}
use grapes.Library.Shm.Tiling.{NoFit}
use grapes.Library.Shm.Alloc.{owner, within}
use grapes.Library.Shm.Ownership.{IsValid, alloc-IsValid, alloc-owner}
use grapes.Library.Shm.Release.{free-IsValid, free-owner}
use grapes.Library.Shm.RoundTrip.{free-alloc}

-- Two pages in use, with a hole of one page between them.
abbrev blocks : List Block
blocks =
    block 0x80000000 0x1000 false
    ∷ block 0x80001000 0x1000 true
    ∷ block 0x80002000 0x1000 false
    ∷ block 0x80003000 0x4FFFD000 true
    ∷ []

blocks-IsValid : IsValid blocks
blocks-IsValid = record { tiles = omega arith; merged = (refl, (refl, (refl, (refl, tt)))) }

alloc_small : (alloc 5 blocks).0 ≡ 0x80001000
unfolding alloc
alloc_small = refl

alloc_first : (alloc 0x1001 []).0 ≡ 0x80000000
unfolding alloc
alloc_first = refl

alloc_large : alloc 0x60000000 blocks ≡ (0, blocks)
unfolding alloc
alloc_large = refl

free_joins :
    free 0x80002000 blocks ≡ block 0x80000000 0x1000 false ∷ block 0x80001000 0x4FFFF000 true ∷ []
unfolding free
free_joins = refl

ready-blocks : ready blocks ≡ blocks
unfolding ready
ready-blocks = refl

alloc-IsValid_example : IsValid (alloc 5 blocks).1
unfolding ready
alloc-IsValid_example = alloc-IsValid 5 blocks blocks-IsValid (omega arith)

alloc-owner_example :
    let (p, bs') = alloc 5 blocks in
    (NoFit 0x1000 blocks × (p ≡ 0) × (bs' ≡ blocks))
    ⊎ ((area_start ≤ p)
        × (p + 0x1000 ≤ area_end)
        × (p % page_size ≡ 0)
        × ((a : ℕ) → within p 0x1000 a ≡ true → owner a blocks ≡ none)
        × ((a : ℕ) → owner a bs' ≡ (if within p 0x1000 a then some p else owner a blocks)))
unfolding ready
alloc-owner_example = alloc-owner 5 blocks blocks-IsValid (omega arith)

free-IsValid_example : IsValid (free 0x80002000 blocks)
free-IsValid_example = free-IsValid 0x80002000 blocks blocks-IsValid

free-owner_example : owner 0x80002abc (free 0x80002000 blocks) ≡ none
free-owner_example = free-owner 0x80002000 0x80002abc blocks blocks-IsValid

free-alloc_example : free (alloc 5 blocks).0 (alloc 5 blocks).1 ≡ blocks
unfolding ready alloc
free-alloc_example = free-alloc 5 blocks blocks-IsValid (omega arith)
