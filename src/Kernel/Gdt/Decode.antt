-- ===== src/Kernel/Gdt/Decode.antt =====
-- What the processor reads from the descriptors that gdt.c writes.
use Prim.Native.Nat.{bit_and, bit_or, bit_or-bitwise}
use grapes.Prelude.{ℕ, ◌+◌, ◌*◌, ◌/◌, ◌%◌, ◌^◌, ◌≡◌, ◌<◌, ◌-◌, ◌==◌, arith, ap, ◌∙◌}
use grapes.Prelude.Bits.{bit_and-halves, bit_or-halves, zero_and}
use grapes.Word.{u32, add32}
use grapes.Kernel.Gdt.{Entry, set_gate, write_tss, tss_size}

abbrev pub base : Entry → ℕ
base e = e.base_low + e.base_middle * 2 ^ 16 + e.base_high * 2 ^ 24

abbrev pub limit : Entry → ℕ
limit e = e.limit_low + e.granularity % 16 * 2 ^ 16

-- the upper half of the granularity byte
abbrev pub flags : Entry → ℕ
flags e = e.granularity / 16

-- the bits of the access byte
abbrev pub present : Entry → ℕ
present e = e.access / 128

abbrev pub privilege : Entry → ℕ
privilege e = e.access / 32 % 4

abbrev executable : Entry → ℕ
executable e = e.access / 8 % 2

and_even : (g m : ℕ) → bit_and g (m * 2) ≡ bit_and (g / 2) m * 2
and_even g m =
    let half : m * 2 / 2 ≡ m = omega arith in
    let mask : bit_and (g / 2) (m * 2 / 2) ≡ bit_and (g / 2) m = ap (bit_and (g / 2)) half in
    omega (arith, bit_and-halves g (m * 2), mask)

and_odd : (g m : ℕ) → bit_and g (m * 2 + 1) ≡ bit_and (g / 2) m * 2 + g % 2
and_odd g m =
    let half : (m * 2 + 1) / 2 ≡ m = omega arith in
    let mask : bit_and (g / 2) ((m * 2 + 1) / 2) ≡ bit_and (g / 2) m = ap (bit_and (g / 2)) half in
    omega (arith, bit_and-halves g (m * 2 + 1), mask)

or_even : (x m : ℕ) → bit_or x (m * 2) ≡ bit_or (x / 2) m * 2 + x % 2
or_even x m =
    let half : m * 2 / 2 ≡ m = omega arith in
    let mask : bit_or (x / 2) (m * 2 / 2) ≡ bit_or (x / 2) m = ap (bit_or (x / 2)) half in
    omega (arith, bit_or-halves x (m * 2), mask)

low_bits : (g : ℕ) → g < 16 → bit_and g 15 ≡ g
low_bits g h = omega (
  arith,
  and_odd g 7,
  and_odd (g / 2) 3,
  and_odd (g / 2 / 2) 1,
  and_odd (g / 2 / 2 / 2) 0,
  zero_and (g / 2 / 2 / 2 / 2),
)

high_half : (g : ℕ) → g < 256 → bit_and g 0xF0 ≡ g / 16 * 16
high_half g h = omega (
  arith,
  and_even g 120,
  and_even (g / 2) 60,
  and_even (g / 2 / 2) 30,
  and_even (g / 2 / 2 / 2) 15,
  low_bits (g / 2 / 2 / 2 / 2) (omega arith),
)

low_half : (x k : ℕ) → x < 16 → bit_or x (k * 2 * 2 * 2 * 2) ≡ x + k * 16
low_half x k h =
    let used_up : x / 2 / 2 / 2 / 2 ≡ 0 = omega arith in
    let rest : bit_or (x / 2 / 2 / 2 / 2) k ≡ k =
      ap (λ y. bit_or y k) used_up ∙ bit_or-bitwise 0 k in
    omega (
      arith,
      or_even x (k * 2 * 2 * 2),
      or_even (x / 2) (k * 2 * 2),
      or_even (x / 2 / 2) (k * 2),
      or_even (x / 2 / 2 / 2) k,
      rest,
    )

joined_lem : (x g : ℕ) → x < 16 → g < 256 → bit_or x (bit_and g 0xF0) ≡ x + g / 16 * 16
joined_lem x g hx hg =
    let high : bit_and g 0xF0 ≡ g / 16 * 2 * 2 * 2 * 2 = omega (arith, high_half g hg) in
    ap (bit_or x) high ∙ low_half x (g / 16) hx

-- A descriptor written by `gdt_setGate` reads back as the base, the lowest twenty bits of the
-- limit, the upper half of the granularity, and the access byte that were given.
set_gate-decode :
    (b l access gran : ℕ)
    → b < u32
    → access < 256
    → gran < 256
    → let e = set_gate b l access gran in
      (base e ≡ b) × (limit e ≡ l % 2 ^ 20) × (flags e ≡ gran / 16) × (e.access ≡ access)
unfolding set_gate
set_gate-decode b l access gran hb ha hg = (
  omega arith,
  omega (arith, joined_lem (l / 2 ^ 16 % 0x10) gran (omega arith) hg),
  omega (arith, joined_lem (l / 2 ^ 16 % 0x10) gran (omega arith) hg),
  omega arith,
)

-- The limit of the TSS descriptor is the lowest twenty bits of the address behind the TSS; that is
-- its size less one, 103, only for a TSS whose address ends in the twenty bits 0xFFFFF.
pub write_tss-limit :
    (tss ss0 esp0 : ℕ)
    → tss + tss_size < u32
    → let e = (write_tss tss ss0 esp0).0 in
      (base e ≡ tss)
      × (limit e ≡ (tss + tss_size) % 2 ^ 20)
      × ((limit e == tss_size - 1) ≡ (tss % 2 ^ 20 == 0xFFFFF))
unfolding write_tss
write_tss-limit tss ss0 esp0 h =
    let d =
      set_gate-decode tss (add32 tss tss_size) 0xE9 0 (omega arith) (omega arith) (omega arith) in
    (d.0, omega (arith, d.1), ground (arith, d.1))
