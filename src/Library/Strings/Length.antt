-- ===== src/Library/Strings/Length.antt =====
-- The length of a string.
use grapes.Prelude.{ℕ, zero, suc, ◌+◌, ◌≡◌, ◌≢◌, ◌<◌, some, ◌==◌, arith, ap, ◌∙◌, false}
use grapes.Library.Strings.{Memory, strlen_loop, strlen}

-- From `str` on there are `n` bytes and then the terminator.
pub record IsString (str n : ℕ) (m : Memory) : Type 0 where
  pub bytes : (k : ℕ) → k < n → m (str + k) ≢ 0
  pub terminator : m (str + n) ≡ 0

loop_end :
    (fuel n i total str : ℕ) (m : Memory)
    → n < fuel
    → total ≡ i + n
    → IsString str total m
    → strlen_loop fuel str i m ≡ some (total + 1)
unfolding strlen_loop
loop_end zero n i total str m lt e s = absurd (omega arith)
loop_end (suc fuel) zero i total str m lt e s =
    let here : i ≡ total = omega arith in
    let stop : m (str + i) ≡ 0 = ap (λ k. m (str + k)) here ∙ s.terminator in
    rw stop (ap (λ k. some (k + 1)) here)
loop_end (suc fuel) (suc n) i total str m lt e s =
    let go_on : (m (str + i) == 0) ≡ false = ground (arith, s.bytes i (omega arith)) in
    rw go_on (loop_end fuel n (i + 1) total str m (omega arith) (omega arith) s)

-- For a string of `n` bytes before its terminator, strlen returns `n + 1`, on any fuel above `n`.
pub strlen_lem :
    (fuel n str : ℕ) (m : Memory) → n < fuel → IsString str n m → strlen fuel str m ≡ some (n + 1)
unfolding strlen
strlen_lem fuel n str m lt s = loop_end fuel n 0 n str m lt (omega arith) s
