-- ===== src/Prelude/Runs.antt =====
-- Commands on a state that can read through a bad pointer, or run out of rounds.
use mathlib.Core.Path.{◌≡◌}

pub data Ran (S A : Type 0) : Type 0 where
  done : A → S → Ran S A
  failed : Ran S A
  exhausted : Ran S A

abbrev pub Action : Type 0 → Type 0 → Type 0
Action S A = S → Ran S A

abbrev pub return : {S A : Type 0} → A → Action S A
return a s = done a s

-- What follows a run: nothing, if it failed.
abbrev pub next : {S A : Type 0} {B : Type 0} → Ran S A → (A → S → Ran S B) → Ran S B
next (done a t) f = f a t
next failed f = failed
next exhausted f = exhausted

infixl 5 ◌>>=◌ ◌>>◌
abbrev pub ◌>>=◌ : {S A B : Type 0} → Action S A → (A → Action S B) → Action S B
◌>>=◌ m f s = next (m s) f

abbrev pub ◌>>◌ : {S B : Type 0} → Action S (Unit {0}) → Action S B → Action S B
m >> k = m >>= λ _. k

-- A run on a part of the state: `put` puts the part back.
abbrev pub within : {S T A : Type 0} → (T → S) → Ran T A → Ran S A
within put (done a t) = done a (put t)
within put failed = failed
within put exhausted = exhausted

-- Two runs that end alike have the same result and the same state.
pub done-same : {S A : Type 0} {a b : A} {s t : S} → done a s ≡ done b t → (a ≡ b) × (s ≡ t)
done-same e = (cc, cc)
