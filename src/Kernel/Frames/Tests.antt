-- ===== src/Kernel/Frames/Tests.antt =====
-- The frames of a set of two words at concrete values.
use grapes.Prelude.{ℕ, ◌≡◌, refl, ◌<◌, ◌⊎◌, none, some, [], ◌∷◌, length, arith, ◌==◌, if◌then◌else◌}
use grapes.Kernel.Frames.{Bitset, first_clear, first_free_loop, first_free, frame_alloc, set_bit}
use grapes.Kernel.Frames.Update.{bit_in}
use grapes.Kernel.Frames.Alloc.{frame_alloc_lem}

-- The first word is full, and in the second the frames 32, 33 and 35 are taken.
abbrev mostly_full : Bitset
mostly_full = record { bits = 0xFFFFFFFF ∷ 11 ∷ []; size = 64 }

abbrev after : Bitset
after = record { bits = 0xFFFFFFFF ∷ 15 ∷ []; size = 64 }

taken : frame_alloc mostly_full ≡ some (34, after)
unfolding frame_alloc first_free first_free_loop first_clear set_bit
taken = refl

frame_alloc_lem_example :
    (((m : ℕ) → m < 64 → bit_in mostly_full.bits m ≡ 1) × (frame_alloc mostly_full ≡ none))
    ⊎ ((free : ℕ) × (t' : Bitset) × (frame_alloc mostly_full ≡ some (free, t'))
        × (free < 64)
        × (bit_in mostly_full.bits free ≡ 0)
        × ((m : ℕ) → m < free → bit_in mostly_full.bits m ≡ 1)
        × (t'.size ≡ 64)
        × (length t'.bits ≡ 2)
        × ((m : ℕ) → bit_in t'.bits m ≡ (if free == m then 1 else bit_in mostly_full.bits m)))
frame_alloc_lem_example =
    frame_alloc_lem mostly_full (omega arith, (omega arith, tt)) (omega arith) (omega arith)
