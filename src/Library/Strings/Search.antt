-- ===== src/Library/Strings/Search.antt =====
-- Strings that differ, and the first place of a byte.
use grapes.Prelude.{
  ℕ, zero, suc, ◌+◌, ◌≡◌, ◌≢◌, ◌<◌, ◌∙◌, sym, ap, refl, false, not, ◌&&◌, some, ◌==◌, arith,
  Bool-cases, inl, inr,
}
use grapes.Library.Strings.{Memory, strchr, strcmp}

shift : (a k : ℕ) (m : Memory) → m (a + suc k) ≡ m (a + 1 + k)
shift a k m = ap m (omega arith)

here : (a : ℕ) (m : Memory) → m (a + 0) ≡ m a
here a m = ap m (omega arith)

-- Strings that differ at index `k`, which is not behind the end of the second, compare unequal.
pub strcmp-differ :
    (fuel k a b : ℕ) (m : Memory)
    → k < fuel
    → ((j : ℕ) → j < k → m (b + j) ≢ 0)
    → m (a + k) ≢ m (b + k)
    → (x : ℕ) × (y : ℕ) × (strcmp fuel a b m ≡ some (x, y)) × ((x == y) ≡ false)
unfolding strcmp
strcmp-differ zero k a b m lt some_b ne = absurd (omega arith)
strcmp-differ (suc fuel) zero a b m lt some_b ne =
    let differ : m a ≢ m b = λ e. ne (here a m ∙ e ∙ sym (here b m)) in
    (m a, m b, ground (arith, differ), ground (arith, differ))
strcmp-differ (suc fuel) (suc k) a b m lt some_b ne =
    let (x, y, rest, unequal) =
      strcmp-differ fuel k (a + 1) (b + 1) m (omega arith)
        (λ j less e. some_b (suc j) (omega arith) (shift b j m ∙ e))
        (λ e. ne (shift a k m ∙ e ∙ sym (shift b k m))) in
    elim (Bool-cases (not (m a == 0) && (m a == m b))) [
      | inl same ↦ (x, y, rw same rest, unequal)
      | inr stop ↦
          let first : m b ≢ 0 = λ e. some_b 0 (omega arith) (here b m ∙ e) in
          (m a, m b, rw stop refl, ground (arith, stop, first))
    ]

-- A byte whose first place in a string is at index `k` is found there.
pub strchr-first :
    (fuel k a c : ℕ) (m : Memory)
    → k < fuel
    → ((j : ℕ) → j < k → m (a + j) ≢ 0)
    → ((j : ℕ) → j < k → m (a + j) ≢ c)
    → m (a + k) ≡ c
    → c ≢ 0
    → strchr fuel a c m ≡ some (a + k)
unfolding strchr
strchr-first zero k a c m lt some_a other at ne = absurd (omega arith)
strchr-first (suc fuel) zero a c m lt some_a other at ne =
    let found : m a ≡ c = sym (here a m) ∙ at in ground (arith, found)
strchr-first (suc fuel) (suc k) a c m lt some_a other at ne =
    let rest =
      strchr-first fuel k (a + 1) c m (omega arith)
        (λ j less e. some_a (suc j) (omega arith) (shift a j m ∙ e))
        (λ j less e. other (suc j) (omega arith) (shift a j m ∙ e)) (sym (shift a k m) ∙ at) ne in
    let first : m a ≢ 0 = λ e. some_a 0 (omega arith) (here a m ∙ e) in
    let second : m a ≢ c = λ e. other 0 (omega arith) (here a m ∙ e) in
    ground (arith, rest, first, second)
