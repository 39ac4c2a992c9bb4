-- ===== src/Kernel/Mutex/Exclusion.antt =====
-- Mutual exclusion among any number of threads.
use grapes.Prelude.{ℕ, ◌≡◌, refl, ap, ◌≤◌, true, false, List, [], ◌∷◌, arith, length, ◌⊎◌, inl, inr}
use grapes.Prelude.Pointers.{Ptr}
use grapes.Kernel.Mutex.{locked, unlocked, lock_e, unlock}

-- The word in memory, and the threads between a successful lock and their unlock.
pub record State : Type 0 where
  pub mutex : ℕ
  pub inside : List Ptr

-- What a thread can do; threads take steps in any order.
pub data Step : State → State → Type 0 where
  enter :
      (s : State) (t : Ptr)
      → (lock_e s.mutex).0 ≡ true
      → Step s (record { mutex = (lock_e s.mutex).1; inside = t ∷ s.inside })
  spin : (s : State) → (lock_e s.mutex).0 ≡ false → Step s (record s { mutex = (lock_e s.mutex).1 })
  leave :
      (s : State) (t : Ptr) (others : List Ptr)
      → s.inside ≡ t ∷ others
      → Step s (record { mutex = unlock s.mutex; inside = others })

pub data Reach (s : State) : State → Type 0 where
  here : Reach s s
  next : {t u : State} → Reach s t → Step t u → Reach s u

-- Free with nobody inside, or locked with one thread inside.
abbrev IsSafe : State → Type 0
IsSafe s =
    ((s.mutex ≡ unlocked) × (s.inside ≡ []))
    ⊎ ((t : Ptr) × (s.mutex ≡ locked) × (s.inside ≡ t ∷ []))

Step-IsSafe : {s u : State} → Step s u → IsSafe s → IsSafe u
unfolding lock_e unlock
Step-IsSafe (enter s t e) (inl (free, none_in)) = inr (t, refl, ap (◌∷◌ t) none_in)
Step-IsSafe (enter s t e) (inr (u, held, one)) = absurd (ground arith)
Step-IsSafe (spin s e) (inl (free, none_in)) = absurd (ground arith)
Step-IsSafe (spin s e) (inr (t, held, one)) = inr (t, refl, one)
Step-IsSafe (leave s t others e) (inl (free, none_in)) = absurd (ground arith)
Step-IsSafe (leave s t others e) (inr (u, held, one)) = inl (refl, ground arith)

-- From a free mutex, in every order of steps, at most one thread is inside, and the mutex is
-- locked exactly while one is.
pub Reach-IsSafe :
    {s u : State}
    → Reach s u
    → IsSafe s
    → (length u.inside ≤ 1)
      × ((u.mutex ≡ locked → length u.inside ≡ 1) × (u.mutex ≡ unlocked → u.inside ≡ []))
Reach-IsSafe r h = go (safe r h)
  where
    safe : {s u : State} → Reach s u → IsSafe s → IsSafe u
    safe here h = h
    safe (next r st) h = Step-IsSafe st (safe r h)

    go :
        {u : State}
        → IsSafe u
        → (length u.inside ≤ 1)
          × ((u.mutex ≡ locked → length u.inside ≡ 1) × (u.mutex ≡ unlocked → u.inside ≡ []))
    go {u} (inl (free, none_in)) = ground arith
    go {u} (inr (t, held, one)) = ground arith
