-- ===== src/Kernel/Frames.antt =====
-- src/kernel/lib/bitset.c, and the allocation of physical frames in src/kernel/mem/paging.c that
-- keeps one bit for each frame. The array `bits` is a list; an access behind its end is a fault.
pub mod Update
pub mod Alloc
mod Tests
use Prim.Native.Nat.{bit_and, bit_or}
use grapes.Prelude.{
  ℕ, zero, suc, ◌+◌, ◌-◌, ◌*◌, ◌/◌, ◌%◌, ◌^◌, Option, none, some, List, ◌==◌, if◌then◌else◌,
  get_elem?, set,
}
use grapes.Word.{u32}

-- `struct bitset`
pub record Bitset : Type 0 where
  pub bits : List ℕ
  pub size : ℕ

-- The word of a bit, changed by `f`.
abbrev pub change : (ℕ → ℕ) → Option ℕ → Bitset → ℕ → Option Bitset
change f none t idx = none
change f (some w) t idx = some (record t { bits = set t.bits idx (f w) })

-- `INDEX_FROM_BIT` and `OFFSET_FROM_BIT`
abbrev pub index : ℕ → ℕ
index num = num / 32

abbrev pub offset : ℕ → ℕ
offset num = num % 32

-- `bitset_set`
unfoldable pub set_bit : Bitset → ℕ → Option Bitset
set_bit t num = change (λ w. bit_or w (2 ^ offset num)) (get_elem? t.bits (index num)) t (index num)

-- `bitset_clear`
pub clear_bit : Bitset → ℕ → Option Bitset
clear_bit t num =
    change (λ w. bit_and w (u32 - 1 - 2 ^ offset num)) (get_elem? t.bits (index num)) t (index num)

abbrev masked : ℕ → Option ℕ → Option ℕ
masked mask none = none
masked mask (some w) = some (bit_and w mask)

-- `bitset_test`
test_bit : Bitset → ℕ → Option ℕ
test_bit t num = masked (2 ^ offset num) (get_elem? t.bits (index num))

-- (uint32_t) - 1
abbrev pub minus_one : ℕ
minus_one = u32 - 1

-- The inner loop of `bitset_firstFree`, from bit `j` on with `n` bits left: the first clear bit.
unfoldable pub first_clear : (n j w : ℕ) → Option ℕ
first_clear zero j w = none
first_clear (suc n) j w =
    let rest = first_clear n (j + 1) w in if bit_and w (2 ^ j) == 0 then some j else rest

-- What the outer loop does with a word of the array.
abbrev pub in_word : ℕ → Option ℕ → Option ℕ → Option ℕ
in_word i none rest = rest
in_word i (some j) rest = some (i * 4 * 8 + j)

-- The outer loop, from word `i` on with `n` words left; the outer `none` is a fault.
unfoldable pub first_free_loop : (n i : ℕ) → List ℕ → Option ℕ
unfolding first_clear
first_free_loop zero i bits = some minus_one
first_free_loop (suc n) i bits =
    let rest = first_free_loop n (i + 1) bits in
    elim (get_elem? bits i) [
      | none ↦ none
      | some w ↦ if w == minus_one then rest else in_word i (first_clear 32 0 w) rest
    ]

-- `bitset_firstFree`
unfoldable pub first_free : Bitset → Option ℕ
unfolding first_free_loop
first_free t = first_free_loop (index t.size) 0 t.bits

abbrev pub alloc_at : Option ℕ → Bitset → Option (ℕ × Bitset)
alloc_at none t = none
alloc_at (some free) t = elim (set_bit t free) [ none ↦ none | some t' ↦ some (free, t') ]

-- `frame_alloc`
unfoldable pub frame_alloc : Bitset → Option (ℕ × Bitset)
unfolding first_free
frame_alloc t = alloc_at (first_free t) t

-- `frame_free`
unfoldable pub frame_free : ℕ → Bitset → Option Bitset
unfolding clear_bit
frame_free id t = clear_bit t id
