-- ===== src/Kernel/Frames/Update.antt =====
-- What the operations do to the bits.
use Prim.Native.Nat.{bit_and, bit_or}
use grapes.Prelude.{
  ℕ, zero, suc, ◌-◌, ◌^◌, ◌≡◌, refl, ◌<◌, none, some, List, [], ◌∷◌, ◌==◌, if◌then◌else◌, get_elem?,
  set, length, length-set, arith,
}
use grapes.Prelude.Bits.{bit, bit-or, bit-and, bit-pow, bit-mask, bit-le_one}
use grapes.Word.{u32}
use grapes.Kernel.Frames.{Bitset, index, offset, set_bit, clear_bit}

-- The bit `num` of an array of words, 0 behind its end.
abbrev pub bit_in : List ℕ → ℕ → ℕ
bit_in bits num = elim (get_elem? bits (index num)) [ none ↦ 0 | some w ↦ bit w (offset num) ]

-- Every word fits 32 bits.
abbrev pub Words : List ℕ → Type 0
Words [] = Unit
Words (w ∷ ws) = (w < u32) × Words ws

pub get_elem?-set :
    (ws : List ℕ) (i j w : ℕ) (v : ℕ)
    → get_elem? ws i ≡ some v
    → get_elem? (set ws i w) j ≡ (if i == j then some w else get_elem? ws j)
get_elem?-set [] i j w v e = absurd (cc)
get_elem?-set (x ∷ ws) zero zero w v e = refl
get_elem?-set (x ∷ ws) zero (suc j) w v e = ground arith
get_elem?-set (x ∷ ws) (suc i) zero w v e = ground arith
get_elem?-set (x ∷ ws) (suc i) (suc j) w v e = ground (arith, get_elem?-set ws i j w v e)

pub get_elem?-some : (ws : List ℕ) (i : ℕ) → i < length ws → (w : ℕ) × (get_elem? ws i ≡ some w)
get_elem?-some [] i h = absurd (omega arith)
get_elem?-some (x ∷ ws) zero h = (x, refl)
get_elem?-some (x ∷ ws) (suc i) h = get_elem?-some ws i (omega arith)

-- A bit that is set is 1, and the others are as before.
pub set_bit_lem :
    (t : Bitset) (num : ℕ)
    → index num < length t.bits
    → (t' : Bitset) × (set_bit t num ≡ some t')
      × (t'.size ≡ t.size)
      × (length t'.bits ≡ length t.bits)
      × ((m : ℕ) → bit_in t'.bits m ≡ (if num == m then 1 else bit_in t.bits m))
unfolding set_bit
set_bit_lem t num h =
    let (w, e) = get_elem?-some t.bits (index num) h in
    (
      record t { bits = set t.bits (index num) (bit_or w (2 ^ offset num)) },
      rw e,
      refl,
      length-set t.bits (index num) (bit_or w (2 ^ offset num)),
      λ m. ground (
        arith,
        e,
        get_elem?-set t.bits (index num) (index m) (bit_or w (2 ^ offset num)) w e,
        bit-or w (2 ^ offset num) (offset m),
        bit-pow (offset num) (offset m),
        bit-le_one w (offset m),
      ),
    )

-- A bit that is cleared is 0, and the others are as before.
pub clear_bit_lem :
    (t : Bitset) (num : ℕ)
    → index num < length t.bits
    → (t' : Bitset) × (clear_bit t num ≡ some t')
      × (t'.size ≡ t.size)
      × (length t'.bits ≡ length t.bits)
      × ((m : ℕ) → bit_in t'.bits m ≡ (if num == m then 0 else bit_in t.bits m))
unfolding clear_bit
clear_bit_lem t num h =
    let (w, e) = get_elem?-some t.bits (index num) h in
    (
      record t { bits = set t.bits (index num) (bit_and w (u32 - 1 - 2 ^ offset num)) },
      rw e,
      refl,
      length-set t.bits (index num) (bit_and w (u32 - 1 - 2 ^ offset num)),
      λ m. ground (
        arith,
        e,
        get_elem?-set t.bits (index num) (index m) (bit_and w (u32 - 1 - 2 ^ offset num)) w e,
        bit-and w (u32 - 1 - 2 ^ offset num) (offset m),
        bit-mask 32 (offset num) (offset m),
        bit-le_one w (offset m),
      ),
    )
