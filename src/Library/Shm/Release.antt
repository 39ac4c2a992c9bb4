-- ===== src/Library/Shm/Release.antt =====
-- `shm_free` keeps the tiling, ends the ownership of one block, and undoes `shm_alloc`.
use grapes.Prelude.{
  ℕ, ◌+◌, ◌<◌, ◌≡◌, ◌≢◌, refl, Bool, true, false, ◌&&◌, Option, none, some, List, [], ◌∷◌, arith,
  inl, inr, Bool-cases, ◌==◌, if◌then◌else◌,
}
use grapes.Word.{u32}
use grapes.Library.Shm.{Block, block, area_start, area_end, unify, release, free_after, free}
use grapes.Library.Shm.Tiling.{Tiles, Tiles-le, Merged, Merged-false}
use grapes.Library.Shm.Alloc.{owner}
use grapes.Library.Shm.Ownership.{IsValid}

unify-Tiles : (lo hi : ℕ) (bs : List Block) → hi < u32 → Tiles lo hi bs → Tiles lo hi (unify bs)
unfolding unify
unify-Tiles lo hi [] fit t = t
unify-Tiles lo hi (b ∷ []) fit t = t
unify-Tiles lo hi (b ∷ n ∷ bs) fit t = ground (arith, Tiles-le (lo + b.size + n.size) hi bs t.3.3)

unify-Merged :
    (h : Bool) (b : Block) (bs : List Block)
    → (h && b.is_hole) ≡ false
    → Merged false bs
    → Merged h (unify (b ∷ bs))
unfolding unify
unify-Merged h b [] e m = (e, tt)
unify-Merged h b (n ∷ bs) e m = ground arith

unify-owner :
    (lo hi a : ℕ) (bs : List Block) → hi < u32 → Tiles lo hi bs → owner a (unify bs) ≡ owner a bs
unfolding unify
unify-owner lo hi a [] fit t = refl
unify-owner lo hi a (b ∷ []) fit t = refl
unify-owner lo hi a (b ∷ n ∷ bs) fit t = ground (arith, Tiles-le (lo + b.size + n.size) hi bs t.3.3)

-- the block as a hole
abbrev freed : Block → Block
freed b = block b.start b.size true

free_after-Tiles :
    (p lo hi : ℕ) (b : Block) (bs : List Block)
    → hi < u32
    → Tiles lo hi (b ∷ bs)
    → Tiles lo hi (free_after p b bs)
unfolding free_after
free_after-Tiles p lo hi b [] fit t = t
free_after-Tiles p lo hi b (n ∷ bs) fit t = elim (Bool-cases (n.start == p)) [
  | inl hit ↦ rw hit (
      unify-Tiles lo hi (b ∷ release n bs) fit
        (t.0, t.1, t.2, unify-Tiles (lo + b.size) hi (freed n ∷ bs) fit t.3))
  | inr miss ↦ rw miss (t.0, t.1, t.2, free_after-Tiles p (lo + b.size) hi n bs fit t.3)
]

free_after-Merged :
    (p : ℕ) (h : Bool) (b : Block) (bs : List Block)
    → Merged h (b ∷ bs)
    → Merged h (free_after p b bs)
unfolding free_after
free_after-Merged p h b [] m = m
free_after-Merged p h b (n ∷ bs) m = elim (Bool-cases (n.start == p)) [
  | inl hit ↦ rw hit (
      unify-Merged h b (release n bs) m.0
        (unify-Merged false (freed n) bs refl (Merged-false n.is_hole bs m.1.1)))
  | inr miss ↦ rw miss (m.0, free_after-Merged p b.is_hole n bs m.1)
]

free-Tiles : (p lo hi : ℕ) (bs : List Block) → hi < u32 → Tiles lo hi bs → Tiles lo hi (free p bs)
unfolding free
free-Tiles p lo hi [] fit t = t
free-Tiles p lo hi (b ∷ bs) fit t = elim (Bool-cases (b.start == p)) [
  | inl hit ↦ rw hit (unify-Tiles lo hi (freed b ∷ bs) fit t)
  | inr miss ↦ rw miss (free_after-Tiles p lo hi b bs fit t)
]

free-Merged : (p : ℕ) (bs : List Block) → Merged false bs → Merged false (free p bs)
unfolding free
free-Merged p [] m = tt
free-Merged p (b ∷ bs) m = elim (Bool-cases (b.start == p)) [
  | inl hit ↦ rw hit (unify-Merged false (freed b) bs refl (Merged-false b.is_hole bs m.1))
  | inr miss ↦ rw miss (free_after-Merged p false b bs m)
]

-- `shm_free` of any address keeps the blocks a tiling with no two neighbouring holes.
pub free-IsValid : (p : ℕ) (bs : List Block) → IsValid bs → IsValid (free p bs)
free-IsValid p bs v = record {
  tiles = free-Tiles p area_start area_end bs (omega arith) v.tiles;
  merged = free-Merged p bs v.merged;
}

-- who owns an address once the block at `p` is released
abbrev disown : ℕ → Option ℕ → Option ℕ
disown p none = none
disown p (some q) = if q == p then none else some q

-- Blocks behind `p` are not released.
disown-behind :
    (p lo hi a : ℕ) (bs : List Block) → Tiles lo hi bs → p < lo → disown p (owner a bs) ≡ owner a bs
disown-behind p lo hi a [] t h = refl
disown-behind p lo hi a (b ∷ bs) t h =
    ground (arith, disown-behind p (lo + b.size) hi a bs t.3 (omega arith))

release-owner :
    (lo hi a : ℕ) (b : Block) (bs : List Block)
    → hi < u32
    → Tiles lo hi (b ∷ bs)
    → owner a (release b bs) ≡ disown b.start (owner a (b ∷ bs))
unfolding release
release-owner lo hi a b bs fit t = ground (
  arith,
  unify-owner lo hi a (freed b ∷ bs) fit t,
  disown-behind b.start (lo + b.size) hi a bs t.3,
)

release-Tiles :
    (lo hi : ℕ) (b : Block) (bs : List Block)
    → hi < u32
    → Tiles lo hi (b ∷ bs)
    → Tiles lo hi (release b bs)
unfolding release
release-Tiles lo hi b bs fit t = unify-Tiles lo hi (freed b ∷ bs) fit t

free_after-owner :
    (p lo hi a : ℕ) (b : Block) (bs : List Block)
    → hi < u32
    → Tiles lo hi (b ∷ bs)
    → b.start ≢ p
    → owner a (free_after p b bs) ≡ disown p (owner a (b ∷ bs))
unfolding free_after
free_after-owner p lo hi a b [] fit t ne = ground arith
free_after-owner p lo hi a b (n ∷ bs) fit t ne = elim (Bool-cases (n.start == p)) [
  | inl hit ↦ rw hit (
      ground (
        arith,
        unify-owner lo hi a (b ∷ release n bs) fit
            (t.0, t.1, t.2, release-Tiles (lo + b.size) hi n bs fit t.3),
        release-owner (lo + b.size) hi a n bs fit t.3,
      ))
  | inr miss ↦
      rw miss (ground (arith, free_after-owner p (lo + b.size) hi a n bs fit t.3 (ground arith)))
]

-- `shm_free(p)` takes the ownership of each address from the block at `p`, and leaves every other
-- address with the owner that it had.
pub free-owner :
    (p a : ℕ) (bs : List Block) → IsValid bs → owner a (free p bs) ≡ disown p (owner a bs)
unfolding free
free-owner p a [] v = refl
free-owner p a (b ∷ bs) v = elim (Bool-cases (b.start == p)) [
  | inl hit ↦
      rw hit (ground (arith, release-owner area_start area_end a b bs (omega arith) v.tiles))
  | inr miss ↦
      rw miss (free_after-owner p area_start area_end a b bs (omega arith) v.tiles (ground arith))
]
