-- ===== src/Kernel/Mutex/Tests.antt =====
-- Two threads and a mutex.
use grapes.Prelude.{◌≡◌, refl, ◌≤◌, [], ◌∷◌, length, inl}
use grapes.Kernel.Mutex.{locked, unlocked, lock_e}
use grapes.Kernel.Mutex.Exclusion.{State, enter, spin, Reach, here, next, Reach-IsSafe}

abbrev free : State
free = record { mutex = unlocked; inside = [] }

abbrev after : State
after = record { mutex = locked; inside = 1 ∷ [] }

-- Thread 1 gets in, and thread 2 has to wait.
run : Reach free after
unfolding lock_e
run = next (next here (enter free 1 refl)) (spin after refl)

Reach-IsSafe_example :
    (length after.inside ≤ 1)
    × ((after.mutex ≡ locked → length after.inside ≡ 1)
        × (after.mutex ≡ unlocked → after.inside ≡ []))
Reach-IsSafe_example = Reach-IsSafe run (inl (refl, refl))
