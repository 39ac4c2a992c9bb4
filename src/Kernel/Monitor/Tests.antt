-- ===== src/Kernel/Monitor/Tests.antt =====
-- The screen and the hexadecimal digits at concrete values.
use grapes.Prelude.{ℕ, ◌≡◌, ◌≤◌, [], ◌∷◌, arith}
use grapes.Kernel.Monitor.{Monitor, cells, blank, write}
use grapes.Kernel.Monitor.Screen.{IsValid, write_lem}

-- the cursor at the last cell
abbrev at_end : Monitor
at_end = record { video_memory = λ i. blank; cursor_x = 79; cursor_y = 24 }

at_end-IsValid : IsValid at_end
at_end-IsValid = record { column = omega arith; line = omega arith }

write_lem_example :
    IsValid (write (b'A' ∷ b'B' ∷ 10 ∷ []) at_end)
    × ((i : ℕ) → cells ≤ i → (write (b'A' ∷ b'B' ∷ 10 ∷ []) at_end).video_memory i ≡ blank)
write_lem_example = write_lem (b'A' ∷ b'B' ∷ 10 ∷ []) at_end at_end-IsValid

abbrev at : ℕ
at = 1999
