-- ===== src/Kernel/Frames/Alloc.antt =====
-- `bitset_firstFree` finds the lowest clear bit, and `frame_alloc` takes it.
use Prim.Native.Nat.{bit_and}
use mathlib.Core.Path.{subst}
use native.Mathlib.Decide.{ℕ_discrete}
use native.Mathlib.Nat.{pow-suc}
use grapes.Prelude.{
  ℕ, zero, suc, ◌+◌, ◌*◌, ◌/◌, ◌%◌, ◌^◌, ◌≡◌, refl, ◌<◌, ◌≤◌, ◌⊎◌, inl, inr, Option, none, some,
  List, [], ◌∷◌, ◌==◌, if◌then◌else◌, get_elem?, length, arith, true, false, Bool-cases,
  Option-cases, ◌∙◌,
}
use grapes.Prelude.Bits.{bit, bit_and-halves, bit-le_one, bits_all, bit-ones, pow_pos, zero_and}
use grapes.Word.{u32}
use grapes.Kernel.Frames.{
  Bitset, alloc_at, index, set_bit, clear_bit, minus_one, first_clear, in_word, first_free_loop,
  first_free, frame_alloc, frame_free,
}
use grapes.Kernel.Frames.Update.{bit_in, Words, get_elem?-some, set_bit_lem, clear_bit_lem}

-- `w & (1 << j)` is the bit, in its place.
and_pow : (j w : ℕ) → bit_and w (2 ^ j) ≡ bit w j * 2 ^ j
unfolding bit
and_pow zero w = omega (arith, bit_and-halves w 1, zero_and (w / 2))
and_pow (suc j) w =
    let half : 2 ^ suc j / 2 ≡ 2 ^ j = omega (arith, pow-suc 2 j) in
    let even : 2 ^ suc j % 2 ≡ 0 = omega (arith, pow-suc 2 j) in
    let rest : bit_and (w / 2) (2 ^ suc j / 2) ≡ bit (w / 2) j * 2 ^ j =
      rw half (and_pow j (w / 2)) in
    shift (bit (w / 2) j) (2 ^ j) (2 ^ suc j) (bit_and w (2 ^ suc j))
      (bit_and (w / 2) (2 ^ suc j / 2)) (pow-suc 2 j) rest
      (omega (arith, bit_and-halves w (2 ^ suc j), even))
  where
    shift : (b p q x y : ℕ) → q ≡ p * 2 → y ≡ b * p → x ≡ y * 2 → x ≡ b * q
    shift b p q x y e e' e'' = rw (e'', e', e) (omega arith)

-- the test of the inner loop
clear_iff :
    (j w : ℕ)
    → ((bit_and w (2 ^ j) == 0) ≡ true → bit w j ≡ 0)
      × ((bit_and w (2 ^ j) == 0) ≡ false → bit w j ≡ 1)
clear_iff j w = (
  λ h. grind (arith, and_pow j w, pow_pos j, bit-le_one w j),
  λ h. grind (arith, and_pow j w, pow_pos j, bit-le_one w j),
)

-- The first clear bit from `j` on among `n`, or none.
abbrev Found : (n j w : ℕ) → Option ℕ → Type 0
Found n j w none = (k : ℕ) → j ≤ k → k < j + n → bit w k ≡ 1
Found n j w (some r) =
    (j ≤ r) × (r < j + n) × (bit w r ≡ 0) × ((k : ℕ) → j ≤ k → k < r → bit w k ≡ 1)

first_clear-Found : (n j w : ℕ) → Found n j w (first_clear n j w)
unfolding first_clear
first_clear-Found zero j w = λ k h h'. absurd (omega arith)
first_clear-Found (suc n) j w = elim (Bool-cases (bit_and w (2 ^ j) == 0)) [
  | inl hit ↦
      rw hit (omega arith, omega arith, (clear_iff j w).0 hit, λ k h h'. absurd (omega arith))
  | inr set_there ↦ rw set_there (
      extend (first_clear n (j + 1) w) (first_clear-Found n (j + 1) w)
        ((clear_iff j w).1 set_there))
]
  where
    at_or : (P : ℕ → Type 0) (k : ℕ) → P j → (j + 1 ≤ k → P k) → j ≤ k → P k
    at_or P k here later h = elim (ℕ_discrete j k) [
      | yes e ↦ subst P e here
      | no ne ↦ later (omega arith)
    ]

    extend : (r : Option ℕ) → Found n (j + 1) w r → bit w j ≡ 1 → Found (suc n) j w r
    extend none f b = λ k h h'. at_or (λ i. bit w i ≡ 1) k b (λ l. f k l (omega arith)) h
    extend (some r) (lo, hi, zero_bit, ones) b = (
      omega arith,
      omega arith,
      zero_bit,
      λ k h h'. at_or (λ i. bit w i ≡ 1) k b (λ l. ones k l h') h,
    )

-- What is found from bit `lo` on below bit `hi`: the lowest clear bit, or, with all of them set,
-- (uint32_t) - 1.
abbrev Lowest : (lo hi : ℕ) → List ℕ → ℕ → Type 0
Lowest lo hi bits r =
    ((r ≡ minus_one) × ((m : ℕ) → lo ≤ m → m < hi → bit_in bits m ≡ 1))
    ⊎ ((lo ≤ r) × (r < hi) × (bit_in bits r ≡ 0) × ((m : ℕ) → lo ≤ m → m < r → bit_in bits m ≡ 1))

word_at : (ws : List ℕ) (i w : ℕ) → Words ws → get_elem? ws i ≡ some w → w < u32
word_at [] i w h e = absurd (cc)
word_at (x ∷ ws) zero w (lt, rest) e = grind arith
word_at (x ∷ ws) (suc i) w (lt, rest) e = word_at ws i w rest e

bit_in-word :
    (ws : List ℕ) (i w m : ℕ) → get_elem? ws i ≡ some w → m / 32 ≡ i → bit_in ws m ≡ bit w (m % 32)
bit_in-word ws i w m e h = ground (arith, e, h)

-- A word with no clear bit is `0xFFFFFFFF`.
full : (w : ℕ) → w < u32 → first_clear 32 0 w ≡ none → w ≡ minus_one
full w lt e =
    bits_all 32 w lt
      (λ k h. subst (Found 32 0 w) e (first_clear-Found 32 0 w) k (omega arith) (omega arith))

-- A word whose bits are set, before what is found behind it.
skip :
    (n i w : ℕ) (bits : List ℕ) (r : ℕ)
    → get_elem? bits i ≡ some w
    → w ≡ minus_one
    → Lowest ((i + 1) * 32) ((i + 1 + n) * 32) bits r
    → Lowest (i * 32) ((i + suc n) * 32) bits r
skip n i w bits r e all found = elim found [
  | inl (out, ones) ↦ inl (out, λ m h h'. earlier m h (λ l. ones m l (omega arith)))
  | inr (lo, hi, clear, ones) ↦
      inr (omega arith, omega arith, clear, λ m h h'. earlier m h (λ l. ones m l h'))
]
  where
    earlier : (m : ℕ) → i * 32 ≤ m → ((i + 1) * 32 ≤ m → bit_in bits m ≡ 1) → bit_in bits m ≡ 1
    earlier m h later = elim (ℕ_discrete (m / 32) i) [
      | yes here ↦ grind (arith, bit_in-word bits i w m e here, bit-ones 32 (m % 32) (omega arith))
      | no ne ↦ later (omega arith)
    ]

loop_step :
    (n i w : ℕ) (bits : List ℕ)
    → get_elem? bits i ≡ some w
    → first_free_loop (suc n) i bits ≡ (
        if w == minus_one
        then first_free_loop n (i + 1) bits
        else in_word i (first_clear 32 0 w) (first_free_loop n (i + 1) bits))
unfolding first_free_loop
loop_step n i w bits e = rw (e, first_free_loop) refl

-- The bit found in a word that is not full.
taken :
    (i n w j : ℕ) (bits : List ℕ)
    → get_elem? bits i ≡ some w
    → Found 32 0 w (some j)
    → let r = i * 4 * 8 + j in
      (i * 32 ≤ r)
      × (r < (i + suc n) * 32)
      × (bit_in bits r ≡ 0)
      × ((m : ℕ) → i * 32 ≤ m → m < r → bit_in bits m ≡ 1)
taken i n w j bits e (lo, hi, zero_bit, ones) =
    let r = i * 4 * 8 + j in
    let offset_r : r % 32 ≡ j = omega arith in
    (
      omega arith,
      omega arith,
      bit_in-word bits i w r e (omega arith) ∙ rw offset_r zero_bit,
      λ m h h'. bit_in-word bits i w m e (omega arith) ∙ ones (m % 32) (omega arith) (omega arith),
    )

first_free_loop-Lowest :
    (n i : ℕ) (bits : List ℕ)
    → Words bits
    → i + n ≤ length bits
    → (r : ℕ) × (first_free_loop n i bits ≡ some r) × Lowest (i * 32) ((i + n) * 32) bits r
unfolding first_free_loop
first_free_loop-Lowest zero i bits fit h =
    (minus_one, refl, inl (refl, λ m l l'. absurd (omega arith)))
first_free_loop-Lowest (suc n) i bits fit h =
    let (w, e) = get_elem?-some bits i (omega arith) in
    let (r, run, found) = first_free_loop-Lowest n (i + 1) bits fit (omega arith) in
    elim (Bool-cases (w == minus_one)) [
      | inl all ↦ (
        r,
        loop_step n i w bits e ∙ rw all run,
        skip n i w bits r e (ground arith)
            (subst (λ k. Lowest ((i + 1) * 32) (k * 32) bits r) (omega arith) found),
      )
      | inr clear ↦ elim (Option-cases (first_clear 32 0 w)) [
        | inl no_bit ↦ absurd (ground (arith, full w (word_at bits i w fit e) no_bit))
        | inr (j, at) ↦ (
          i * 4 * 8 + j,
          loop_step n i w bits e ∙ rw (clear, at) refl,
          inr (taken i n w j bits e (subst (Found 32 0 w) at (first_clear-Found 32 0 w))),
        )
      ]
    ]

get_elem?-none : (ws : List ℕ) (i : ℕ) → length ws ≤ i → get_elem? ws i ≡ none
get_elem?-none [] i h = refl
get_elem?-none (x ∷ ws) zero h = absurd (omega arith)
get_elem?-none (x ∷ ws) (suc i) h = get_elem?-none ws i (omega arith)

alloc_at-minus_one : (t : Bitset) → length t.bits < 2 ^ 27 → alloc_at (some minus_one) t ≡ none
unfolding set_bit
alloc_at-minus_one t small =
    rw (get_elem?-none t.bits (index minus_one) (omega arith), alloc_at) refl

alloc_at-some :
    (t : Bitset) (r : ℕ) (t' : Bitset) → set_bit t r ≡ some t' → alloc_at (some r) t ≡ some (r, t')
alloc_at-some t r t' ok = rw (ok, alloc_at) refl

-- With an array of less than 2^27 words of 32 bits that holds the frames of the whole words of the
-- set, `frame_alloc` takes the lowest free frame and marks it and no other; with none free it
-- writes behind the array.
pub frame_alloc_lem :
    (t : Bitset)
    → Words t.bits
    → index t.size ≤ length t.bits
    → length t.bits < 2 ^ 27
    → (((m : ℕ) → m < index t.size * 32 → bit_in t.bits m ≡ 1) × (frame_alloc t ≡ none))
      ⊎ ((free : ℕ) × (t' : Bitset) × (frame_alloc t ≡ some (free, t'))
          × (free < index t.size * 32)
          × (bit_in t.bits free ≡ 0)
          × ((m : ℕ) → m < free → bit_in t.bits m ≡ 1)
          × (t'.size ≡ t.size)
          × (length t'.bits ≡ length t.bits)
          × ((m : ℕ) → bit_in t'.bits m ≡ (if free == m then 1 else bit_in t.bits m)))
unfolding frame_alloc first_free
frame_alloc_lem t fit h small =
    let (r, run, found) = first_free_loop-Lowest (index t.size) 0 t.bits fit (omega arith) in
    elim found [
      | inl (out, ones) ↦
          inl
            (λ m l. ones m (omega arith) (omega arith), rw (run, out) (alloc_at-minus_one t small))
      | inr (lo, hi, clear, ones) ↦
          let (t', ok, size, same, bits) = set_bit_lem t r (omega arith) in
          inr (
            r,
            t',
            rw run (alloc_at-some t r t' ok),
            omega arith,
            clear,
            λ m l. ones m (omega arith) l,
            size,
            same,
            bits,
          )
    ]

-- A frame freed after its allocation: every bit is as it was before.
frame_free-frame_alloc :
    (t t' : Bitset) (free : ℕ)
    → Words t.bits
    → index t.size ≤ length t.bits
    → length t.bits < 2 ^ 27
    → frame_alloc t ≡ some (free, t')
    → (t'' : Bitset) × (frame_free free t' ≡ some t'')
      × ((m : ℕ) → bit_in t''.bits m ≡ bit_in t.bits m)
unfolding frame_free
frame_free-frame_alloc t t' free fit h small run = elim (frame_alloc_lem t fit h small) [
  | inl (all_set, fault) ↦ absurd (cc)
  | inr (r, u, ok, lo, clear, ones, size, same, bits) ↦
      let r_free : r ≡ free = cc in
      let u_t' : u ≡ t' = cc in restored r_free u_t' (omega arith) same clear bits
]
  where
    freed :
        (m : ℕ) {x : ℕ}
        → bit_in t.bits free ≡ 0
        → x ≡ (if free == m then 1 else bit_in t.bits m)
        → (if free == m then 0 else x) ≡ bit_in t.bits m
    freed m {x} clear e = elim (ℕ_discrete free m) [
      | yes here ↦
          subst (λ k. (if free == k then 0 else x) ≡ bit_in t.bits k) here (ground (arith, clear))
      | no ne ↦ ground arith
    ]

    restored :
        {r : ℕ} {u : Bitset}
        → r ≡ free
        → u ≡ t'
        → index r < length t.bits
        → length u.bits ≡ length t.bits
        → bit_in t.bits r ≡ 0
        → ((m : ℕ) → bit_in u.bits m ≡ (if r == m then 1 else bit_in t.bits m))
        → (t'' : Bitset) × (clear_bit t' free ≡ some t'')
          × ((m : ℕ) → bit_in t''.bits m ≡ bit_in t.bits m)
    restored {r} {u} e e' lo same clear bits =
        let same' : length t'.bits ≡ length t.bits =
          subst (λ x. length x.bits ≡ length t.bits) e' same in
        let clear' : bit_in t.bits free ≡ 0 = subst (λ x. bit_in t.bits x ≡ 0) e clear in
        let lo' : index free < length t.bits = subst (λ x. index x < length t.bits) e lo in
        let bits' : (m : ℕ) → bit_in t'.bits m ≡ (if free == m then 1 else bit_in t.bits m) = λ m.
          subst (λ x. bit_in x.bits m ≡ (if free == m then 1 else bit_in t.bits m)) e'
            (subst (λ y. bit_in u.bits m ≡ (if y == m then 1 else bit_in t.bits m)) e (bits m)) in
        let (t'', done, _, _, back) = clear_bit_lem t' free (omega arith) in
        (t'', done, λ m. back m ∙ freed m clear' (bits' m))
