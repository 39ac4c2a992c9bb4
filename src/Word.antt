-- ===== src/Word.antt =====
-- 32-bit words, and the rounding to pages that the allocators share. `x & 0xFFF` is `x % 0x1000`
-- and `x & 0xFFFFF000` is `x / 0x1000 * 0x1000`, in the form that the arithmetic tactics read.
use grapes.Prelude.{ℕ, ◌+◌, ◌-◌, ◌*◌, ◌/◌, ◌%◌, ◌^◌, ◌==◌, if◌then◌else◌}

abbrev pub u32 : ℕ
u32 = 2 ^ 32

abbrev pub page_size : ℕ
page_size = 0x1000

-- `uint32_t` addition and subtraction
abbrev pub add32 : ℕ → ℕ → ℕ
add32 a b = (a + b) % u32

abbrev pub sub32 : ℕ → ℕ → ℕ
sub32 a b = (a + u32 - b) % u32

-- `x & 0xFFFFF000`
abbrev pub page_floor : ℕ → ℕ
page_floor x = x / page_size * page_size

-- `if (x & 0xFFF) x = (x & 0xFFFFF000) + 0x1000;`
abbrev pub page_up : ℕ → ℕ
page_up x = if x % page_size == 0 then x else add32 (page_floor x) page_size
