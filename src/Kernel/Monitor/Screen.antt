-- ===== src/Kernel/Monitor/Screen.antt =====
-- The cursor stays on the screen, and nothing is written beside it.
use Prim.Native.Nat.{bit_or}
use grapes.Prelude.{
  ℕ, ◌+◌, ◌*◌, ◌≡◌, refl, ◌∙◌, ◌<◌, ◌≤◌, true, ◌&&◌, List, [], ◌∷◌, arith, ltb, leb, ◌==◌,
  if◌then◌else◌,
}
use grapes.Kernel.Monitor.{Monitor, cells, blank, put, write}

pub record IsValid (s : Monitor) : Type 0 where
  pub column : s.cursor_x < 80
  pub line : s.cursor_y < 25

-- Any character leaves the cursor on the screen.
put-IsValid : (c : ℕ) (s : Monitor) → IsValid s → IsValid (put c s)
unfolding put
put-IsValid c s v = ground arith

-- A character writes no memory behind the last cell.
put-outside :
    (c i : ℕ) (s : Monitor) → IsValid s → cells ≤ i → (put c s).video_memory i ≡ s.video_memory i
unfolding put
put-outside c i s v h = ground arith

-- Any text leaves the cursor on the screen and writes no memory behind the last cell.
pub write_lem :
    (cs : List ℕ) (s : Monitor)
    → IsValid s
    → IsValid (write cs s) × ((i : ℕ) → cells ≤ i → (write cs s).video_memory i ≡ s.video_memory i)
unfolding write
write_lem [] s v = (v, λ i h. refl)
write_lem (c ∷ cs) s v =
    let (ok, same) = write_lem cs (put c s) (put-IsValid c s v) in
    (ok, λ i h. same i h ∙ put-outside c i s v h)

-- A printable character appears where the cursor stood, or one line higher if it was the last cell;
-- in the first case no other cell changes, in the second all lines move up and the last is blank.
put-shows :
    (c : ℕ) (s : Monitor)
    → IsValid s
    → (leb 0x20 c && ltb c 0x80) ≡ true
    → let at = s.cursor_y * 80 + s.cursor_x in
      let s' = put c s in
      (at < 1999
        → (i : ℕ) → s'.video_memory i ≡ (if i == at then bit_or c 0x0700 else s.video_memory i))
      × (at ≡ 1999
          → (s'.video_memory 1919 ≡ bit_or c 0x0700)
            × (((i : ℕ) → i < 1919 → s'.video_memory i ≡ s.video_memory (i + 80))
                × ((i : ℕ) → 1919 < i → i < cells → s'.video_memory i ≡ blank)))
unfolding put
put-shows c s v printable =
    (λ h i. ground arith, λ h. (ground arith, (λ i k. ground arith, λ i k m. ground arith)))
