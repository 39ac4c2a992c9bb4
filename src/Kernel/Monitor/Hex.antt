-- ===== src/Kernel/Monitor/Hex.antt =====
-- `monitor_writeHex` shows the number.
use grapes.Prelude.{
  ℕ, zero, suc, ◌+◌, ◌-◌, ◌*◌, ◌/◌, ◌%◌, ◌^◌, ◌≡◌, refl, sym, ◌∙◌, ◌<◌, List, [], ◌∷◌, arith, ltb,
  if◌then◌else◌, get_or, length,
}
use mathlib.Core.Path.{subst}
use native.Mathlib.Nat.{pow-suc}
use grapes.Word.{u32}
use grapes.Kernel.Monitor.{hexdigits, hex_loop, hex_chars}

-- the value of a digit character
digit_value : ℕ → ℕ
digit_value c = if ltb c b'a' then c - b'0' else c - b'a' + 10

abbrev hex_value : ℕ → List ℕ → ℕ
hex_value acc [] = acc
hex_value acc (c ∷ cs) = hex_value (acc * 16 + digit_value c) cs

digit_value-hexdigits : (d : ℕ) → d < 16 → digit_value (get_or hexdigits d 0) ≡ d
unfolding digit_value
digit_value-hexdigits zero h = refl
digit_value-hexdigits (suc zero) h = refl
digit_value-hexdigits (suc (suc zero)) h = refl
digit_value-hexdigits (suc (suc (suc zero))) h = refl
digit_value-hexdigits (suc (suc (suc (suc zero)))) h = refl
digit_value-hexdigits (suc (suc (suc (suc (suc zero))))) h = refl
digit_value-hexdigits (suc (suc (suc (suc (suc (suc zero)))))) h = refl
digit_value-hexdigits (suc (suc (suc (suc (suc (suc (suc zero))))))) h = refl
digit_value-hexdigits (suc (suc (suc (suc (suc (suc (suc (suc zero)))))))) h = refl
digit_value-hexdigits (suc (suc (suc (suc (suc (suc (suc (suc (suc zero))))))))) h = refl
digit_value-hexdigits (suc (suc (suc (suc (suc (suc (suc (suc (suc (suc zero)))))))))) h = refl
digit_value-hexdigits (suc (suc (suc (suc (suc (suc (suc (suc (suc (suc (suc zero))))))))))) h =
    refl
digit_value-hexdigits (suc (suc (suc (suc (suc (suc (suc (suc (suc (suc (suc (suc zero))))))))))))
      h =
    refl
digit_value-hexdigits
      (suc (suc (suc (suc (suc (suc (suc (suc (suc (suc (suc (suc (suc zero))))))))))))) h =
    refl
digit_value-hexdigits
      (suc (suc (suc (suc (suc (suc (suc (suc (suc (suc (suc (suc (suc (suc zero)))))))))))))) h =
    refl
digit_value-hexdigits
      (suc (suc (suc (suc (suc (suc (suc (suc (suc (suc (suc (suc (suc (suc (suc zero)))))))))))))))
      h =
    refl
digit_value-hexdigits
      (suc
        (suc (suc (suc (suc (suc (suc (suc (suc (suc (suc (suc (suc (suc (suc (suc n))))))))))))))))
      h =
    absurd (omega arith)

-- what one round of the loop takes off and leaves
round_lem : (v : ℕ) → v < u32 → v ≡ v / 2 ^ 28 * 2 ^ 28 + v * 16 % u32 / 16
round_lem v h = omega arith

-- the value of the digits that `n` rounds write, read as a number
digits_sum : ℕ → ℕ → ℕ
digits_sum zero v = 0
digits_sum (suc n) v = v / 2 ^ 28 * 16 ^ n + digits_sum n (v * 16 % u32)

spread : (a d p s : ℕ) → (a * 16 + d) * p + s ≡ a * (p * 16) + (d * p + s)
spread a d p s = omega arith

regroup : (a d n s : ℕ) → (a * 16 + d) * 16 ^ n + s ≡ a * 16 ^ suc n + (d * 16 ^ n + s)
regroup a d n s = rw (pow-suc 16 n) (spread a d (16 ^ n) s)

hex_value-hex_loop :
    (n acc v : ℕ) → v < u32 → hex_value acc (hex_loop n v) ≡ acc * 16 ^ n + digits_sum n v
unfolding hex_loop digits_sum
hex_value-hex_loop zero acc v h = omega arith
hex_value-hex_loop (suc n) acc v h =
    let d : digit_value (get_or hexdigits (v / 2 ^ 28) 0) ≡ v / 2 ^ 28 =
      digit_value-hexdigits (v / 2 ^ 28) (omega arith) in
    let rest = hex_value-hex_loop n (acc * 16 + v / 2 ^ 28) (v * 16 % u32) (omega arith) in
    subst
      (λ k.
        hex_value (acc * 16 + k) (hex_loop n (v * 16 % u32))
        ≡ acc * 16 ^ suc n + (v / 2 ^ 28 * 16 ^ n + digits_sum n (v * 16 % u32)))
      (sym d) (rest ∙ regroup acc (v / 2 ^ 28) n (digits_sum n (v * 16 % u32)))

digits_sum_eight : (v : ℕ) → v < u32 → digits_sum 8 v ≡ v
unfolding digits_sum
digits_sum_eight v h = omega arith

-- The eight digits behind `0x`, read as a number, are the number that was given.
hex_value-hex_chars :
    (v : ℕ)
    → v < u32
    → (hex_chars v ≡ b'0' ∷ b'x' ∷ hex_loop 8 v)
      × (hex_value 0 (hex_loop 8 v) ≡ v)
      × (length (hex_loop 8 v) ≡ 8)
unfolding hex_chars
hex_value-hex_chars v h =
    (refl, omega (arith, hex_value-hex_loop 8 0 v h, digits_sum_eight v h), refl)
