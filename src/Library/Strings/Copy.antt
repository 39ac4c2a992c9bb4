-- ===== src/Library/Strings/Copy.antt =====
-- What `memcpy` and `memset` leave in memory.
use grapes.Prelude.{
  ℕ, zero, suc, ◌+◌, ◌-◌, ◌*◌, ◌/◌, ◌%◌, ◌≡◌, ◌≢◌, ◌≤◌, ◌⊎◌, inl, inr, ap, ◌∙◌, Bool, true, ◌&&◌,
  leb, ltb, ◌==◌, if◌then◌else◌, arith, Bool-cases,
}
use grapes.Prelude.Pointers.{update}
use grapes.Library.Strings.{Memory, copy_bytes, copy_word, copy_words, memcpy, set_bytes, memset}

-- The address is one of the `n` from `lo` on.
abbrev pub within : (lo n a : ℕ) → Bool
within lo n a = leb lo a && ltb a (lo + n)

-- Two ranges of `n` bytes have no byte in common.
abbrev pub Apart : (p q n : ℕ) → Type 0
Apart p q n = (p + n ≤ q) ⊎ (q + n ≤ p)

copy_bytes_lem :
    (n i dest src : ℕ) (m : Memory) (a : ℕ)
    → Apart dest src (i + n)
    → copy_bytes n i dest src m a ≡ (if within (dest + i) n a then m (src + (a - dest)) else m a)
unfolding copy_bytes
copy_bytes_lem zero i dest src m a apart = ground arith
copy_bytes_lem (suc n) i dest src m a apart =
    let rest =
      copy_bytes_lem n (i + 1) dest src (update m (dest + i) (m (src + i))) a (next apart) in
    elim (Bool-cases ((dest + i) == a)) [
      | inl here ↦ ground (arith, rest, here, same here)
      | inr there ↦ ground (arith, rest, there, apart, kept (src + (a - dest)))
    ]
  where
    next : Apart dest src (i + suc n) → Apart dest src (i + 1 + n)
    next (inl l) = inl (omega arith)
    next (inr r) = inr (omega arith)

    same : ((dest + i) == a) ≡ true → m (src + i) ≡ m (src + (a - dest))
    same here = ap m (ground (arith, here))

    kept : (b : ℕ) → b ≢ dest + i → update m (dest + i) (m (src + i)) b ≡ m b
    kept b ne = ground (arith, ne)

set_bytes_lem :
    (n i dest val : ℕ) (m : Memory) (a : ℕ)
    → set_bytes n i dest val m a ≡ (if within (dest + i) n a then val else m a)
unfolding set_bytes
set_bytes_lem zero i dest val m a = ground arith
set_bytes_lem (suc n) i dest val m a =
    ground (arith, set_bytes_lem n (i + 1) dest val (update m (dest + i) val) a)

copy_word_lem :
    (dest src : ℕ) (m : Memory) (a : ℕ)
    → copy_word dest src m a ≡ (if within dest 4 a then m (src + (a - dest)) else m a)
copy_word_lem dest src m a = elim (Bool-cases (a == dest)) [
  | inl e ↦ ground (arith, at 0 (ground (arith, e)), e)
  | inr n0 ↦ elim (Bool-cases (a == dest + 1)) [
    | inl e ↦ ground (arith, at 1 (ground (arith, e)), e)
    | inr n1 ↦ elim (Bool-cases (a == dest + 2)) [
      | inl e ↦ ground (arith, at 2 (ground (arith, e)), e)
      | inr n2 ↦ elim (Bool-cases (a == dest + 3)) [
        | inl e ↦ ground (arith, at 3 (ground (arith, e)), e)
        | inr n3 ↦ ground (arith, n0, n1, n2, n3)
      ]
    ]
  ]
]
  where
    at : (k : ℕ) → a ≡ dest + k → m (src + k) ≡ m (src + (a - dest))
    at k e = ap m (omega arith)

copy_words_lem :
    (n i dest src : ℕ) (m : Memory) (a : ℕ)
    → Apart dest src (4 * (i + n))
    → copy_words n i dest src m a
      ≡ (if within (dest + 4 * i) (4 * n) a then m (src + (a - dest)) else m a)
unfolding copy_words
copy_words_lem zero i dest src m a apart = ground arith
copy_words_lem (suc n) i dest src m a apart =
    let d = dest + 4 * i in
    let s = src + 4 * i in
    let rest = copy_words_lem n (i + 1) dest src (copy_word d s m) a (next apart) in
    elim (Bool-cases (within d 4 a)) [
      | inl here ↦
          let same : m (s + (a - d)) ≡ m (src + (a - dest)) = ap m (ground (arith, here)) in
          rest ∙ ground (arith, here, same, copy_word_lem d s m a)
      | inr there ↦
          rest
          ∙ ground
              (arith, there, apart, copy_word_lem d s m a, copy_word_lem d s m (src + (a - dest)))
    ]
  where
    next : Apart dest src (4 * (i + suc n)) → Apart dest src (4 * (i + 1 + n))
    next (inl l) = inl (omega arith)
    next (inr r) = inr (omega arith)

pub memcpy_lem :
    (dest src count : ℕ) (m : Memory) (a : ℕ)
    → Apart dest src count
    → memcpy dest src count m a ≡ (if within dest count a then m (src + (a - dest)) else m a)
unfolding memcpy
memcpy_lem dest src count m a apart =
    let m' = copy_words (count / 4) 0 dest src m in
    let tail = copy_bytes_lem (count % 4) (count - count % 4) dest src m' a (bytes apart) in
    let words = copy_words_lem (count / 4) 0 dest src m a (whole apart) in
    let read = copy_words_lem (count / 4) 0 dest src m (src + (a - dest)) (whole apart) in
    tail ∙ ground (arith, words, read, apart)
  where
    bytes : Apart dest src count → Apart dest src (count - count % 4 + count % 4)
    bytes (inl l) = inl (omega arith)
    bytes (inr r) = inr (omega arith)

    whole : Apart dest src count → Apart dest src (4 * (0 + count / 4))
    whole (inl l) = inl (omega arith)
    whole (inr r) = inr (omega arith)

pub memset_lem :
    (dest val count : ℕ) (m : Memory) (a : ℕ)
    → memset dest val count m a ≡ (if within dest count a then val else m a)
unfolding memset
memset_lem dest val count m a = ground (arith, set_bytes_lem count 0 dest val m a)
