-- ===== src/Prelude/Bits.antt =====
-- Single bits of a number: what `|`, `&` and a shifted one do to them.
use Prim.Native.Nat.{bit_and, bit_or, min, max, digits, bitwise, bit_and-bitwise, bit_or-bitwise}
use Prim.Native.Nat.{ℕ, zero, suc, ◌+◌, ◌-◌, ◌*◌, ◌/◌, ◌%◌, ◌^◌, ◌≤◌, ◌<◌}
use mathlib.Core.Path.{◌≡◌, refl, ap, sym, ◌∙◌}
use native.Mathlib.Omega.{arith}
use native.Mathlib.Nat.{pow-suc}
use grapes.Prelude.Tests.{◌==◌, if◌then◌else◌}

-- A native operation `op` that is the digit recursion with `low` at two digits, and `rest` for the
-- second number once the first is used up. Its fuel is immaterial once it covers the first number.
module _ (rest : ℕ → ℕ) (low : ℕ → ℕ → ℕ) (op : ℕ → ℕ → ℕ)
    (means : (a b : ℕ) → op a b ≡ bitwise rest low a b) where
  used_up : (fuel b : ℕ) → digits rest low fuel 0 b ≡ rest b
  used_up zero b = refl
  used_up (suc fuel) b = refl

  same_digits :
      (a fuel other b : ℕ)
      → a ≤ other
      → a ≤ fuel
      → digits rest low fuel a b ≡ digits rest low other a b
  same_digits zero fuel other b l m = used_up fuel b ∙ sym (used_up other b)
  same_digits (suc a) zero other b l m = absurd (omega arith)
  same_digits (suc a) (suc fuel) zero b l m = absurd (omega arith)
  same_digits (suc a) (suc fuel) (suc other) b l m =
      ap (λ d. d * 2 + low (suc a % 2) (b % 2))
        (same_digits (suc a / 2) fuel other (b / 2) (omega arith) (omega arith))

  op-halves : (b a : ℕ) → op (suc a) b ≡ op (suc a / 2) (b / 2) * 2 + low (suc a % 2) (b % 2)
  op-halves b a =
      means (suc a) b
      ∙ ap (λ d. d * 2 + low (suc a % 2) (b % 2))
          (same_digits (suc a / 2) a (suc a / 2) (b / 2) (omega arith) (omega arith)
            ∙ sym (means (suc a / 2) (b / 2)))

pub bit_or-halves : (a b : ℕ) → bit_or a b ≡ bit_or (a / 2) (b / 2) * 2 + max (a % 2) (b % 2)
bit_or-halves (suc a) b = op-halves (λ y. y) max bit_or bit_or-bitwise b a
bit_or-halves zero b = omega (arith, bit_or-bitwise 0 (b / 2), bit_or-bitwise 0 b)

pub bit_and-halves : (a b : ℕ) → bit_and a b ≡ bit_and (a / 2) (b / 2) * 2 + min (a % 2) (b % 2)
bit_and-halves (suc a) b = op-halves (λ y. 0) min bit_and bit_and-bitwise b a
bit_and-halves zero b = omega (arith, bit_and-bitwise 0 (b / 2), bit_and-bitwise 0 b)

pub zero_and : (a : ℕ) → bit_and a 0 ≡ 0
zero_and a = go a a (omega arith)
  where
    go : (n b : ℕ) → b ≤ n → bit_and b 0 ≡ 0
    go n zero h = refl
    go zero (suc b) h = absurd (omega arith)
    go (suc n) (suc b) h = omega (arith, bit_and-halves (suc b) 0, go n (suc b / 2) (omega arith))

-- bit `k` of a number, 0 or 1
unfoldable pub bit : ℕ → ℕ → ℕ
bit a zero = a % 2
bit a (suc k) = bit (a / 2) k

pub bit-or : (a b k : ℕ) → bit (bit_or a b) k ≡ max (bit a k) (bit b k)
unfolding bit
bit-or a b zero = omega (arith, bit_or-halves a b)
bit-or a b (suc k) =
    let half : bit_or a b / 2 ≡ bit_or (a / 2) (b / 2) = omega (arith, bit_or-halves a b) in
    rw half (bit-or (a / 2) (b / 2) k)

pub bit-and : (a b k : ℕ) → bit (bit_and a b) k ≡ min (bit a k) (bit b k)
unfolding bit
bit-and a b zero = omega (arith, bit_and-halves a b)
bit-and a b (suc k) =
    let half : bit_and a b / 2 ≡ bit_and (a / 2) (b / 2) = omega (arith, bit_and-halves a b) in
    rw half (bit-and (a / 2) (b / 2) k)

bit-zero : (k : ℕ) → bit 0 k ≡ 0
unfolding bit
bit-zero zero = refl
bit-zero (suc k) = bit-zero k

pub bit-le_one : (a k : ℕ) → bit a k ≤ 1
unfolding bit
bit-le_one a zero = omega arith
bit-le_one a (suc k) = bit-le_one (a / 2) k

-- `1 << k` has the one bit.
pub bit-pow : (k j : ℕ) → bit (2 ^ k) j ≡ (if k == j then 1 else 0)
unfolding bit
bit-pow zero zero = refl
bit-pow zero (suc j) = ground (arith, bit-zero j)
bit-pow (suc k) zero = grind (arith, pow-suc 2 k)
bit-pow (suc k) (suc j) =
    let half : 2 ^ suc k / 2 ≡ 2 ^ k = omega (arith, pow-suc 2 k) in
    rw half (ground (arith, bit-pow k j))

pub pow_pos : (n : ℕ) → 0 < 2 ^ n
pow_pos zero = omega arith
pow_pos (suc n) = omega (arith, pow-suc 2 n, pow_pos n)

pow_lt : (k n : ℕ) → k < n → 2 ^ k < 2 ^ n
pow_lt k zero h = absurd (omega arith)
pow_lt zero (suc n) h = omega (arith, pow-suc 2 n, pow_pos n)
pow_lt (suc k) (suc n) h = omega (arith, pow-suc 2 n, pow-suc 2 k, pow_lt k n (omega arith))

pub bit-ones : (n j : ℕ) → j < n → bit (2 ^ n - 1) j ≡ 1
unfolding bit
bit-ones zero j h = absurd (omega arith)
bit-ones (suc n) zero h = omega (arith, pow-suc 2 n, pow_pos n)
bit-ones (suc n) (suc j) h =
    let half : (2 ^ suc n - 1) / 2 ≡ 2 ^ n - 1 = omega (arith, pow-suc 2 n, pow_pos n) in
    rw half (bit-ones n j (omega arith))

-- `~(1 << k)` in a word of `n` bits lacks the one bit.
pub bit-mask : (n k j : ℕ) → k < n → j < n → bit (2 ^ n - 1 - 2 ^ k) j ≡ (if k == j then 0 else 1)
unfolding bit
bit-mask zero k j h h' = absurd (omega arith)
bit-mask (suc n) zero zero h h' = omega (arith, pow-suc 2 n)
bit-mask (suc n) zero (suc j) h h' =
    let half : (2 ^ suc n - 1 - 1) / 2 ≡ 2 ^ n - 1 = omega (arith, pow-suc 2 n, pow_pos n) in
    rw half (ground (arith, bit-ones n j (omega arith)))
bit-mask (suc n) (suc k) zero h h' =
    grind (arith, pow-suc 2 n, pow-suc 2 k, pow_lt k n (omega arith))
bit-mask (suc n) (suc k) (suc j) h h' =
    let half : (2 ^ suc n - 1 - 2 ^ suc k) / 2 ≡ 2 ^ n - 1 - 2 ^ k =
      omega (arith, pow-suc 2 n, pow-suc 2 k, pow_lt k n (omega arith)) in
    rw half (ground (arith, bit-mask n k j (omega arith) (omega arith)))

-- A word is known by its bits.
pub bits_all : (n a : ℕ) → a < 2 ^ n → ((k : ℕ) → k < n → bit a k ≡ 1) → a ≡ 2 ^ n - 1
unfolding bit
bits_all zero a h ones = omega arith
bits_all (suc n) a h ones = omega (
  arith,
  pow-suc 2 n,
  ones 0 (omega arith),
  bits_all n (a / 2) (omega (arith, pow-suc 2 n)) (λ k l. ones (suc k) (omega arith)),
)

bits_none : (n a : ℕ) → a < 2 ^ n → ((k : ℕ) → k < n → bit a k ≡ 0) → a ≡ 0
unfolding bit
bits_none zero a h zeros = omega arith
bits_none (suc n) a h zeros = omega (
  arith,
  pow-suc 2 n,
  zeros 0 (omega arith),
  bits_none n (a / 2) (omega (arith, pow-suc 2 n)) (λ k l. zeros (suc k) (omega arith)),
)
