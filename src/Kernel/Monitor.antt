-- ===== src/Kernel/Monitor.antt =====
-- src/kernel/core/monitor.c: the text screen. Telling the hardware where the cursor is
-- (`move_cursor`) is left out, and so is `monitor_writeDec`. A `char` is a byte.
pub mod Screen
pub mod Hex
mod Tests
use Prim.Native.Nat.{bit_or}
use grapes.Prelude.{
  ℕ, zero, suc, ◌+◌, ◌-◌, ◌*◌, ◌/◌, ◌%◌, ◌^◌, Bool, true, false, ◌&&◌, not, List, [], ◌∷◌, ltb, leb,
  ◌==◌, if◌then◌else◌, get_or,
}
use grapes.Word.{u32}

pub record Monitor : Type 0 where
  pub cursor_x : ℕ
  pub cursor_y : ℕ
  pub video_memory : ℕ → ℕ

-- the cells of 25 lines of 80 columns
abbrev pub cells : ℕ
cells = 2000

-- `(attribute << 8) | 0x20` with white on black
abbrev pub blank : ℕ
blank = 0x0720

-- `scroll`
scroll : Monitor → Monitor
scroll s =
    if leb 25 s.cursor_y
    then record s {
      video_memory = λ i.
          if ltb i 1920
          then s.video_memory (i + 80)
          else if ltb i cells
          then blank
          else s.video_memory i;
      cursor_y = 24;
    }
    else s

-- What the character does to the cells and the cursor; the bytes from 128 on are negative.
pub place : ℕ → Monitor → Monitor
place c s =
    if (c == 8) && not (s.cursor_x == 0)
    then record s { cursor_x = s.cursor_x - 1 }
    else if c == 9
    then record s { cursor_x = (s.cursor_x + 8) / 8 * 8 }
    else if c == 13
    then record s { cursor_x = 0 }
    else if c == 10
    then record s { cursor_x = 0; cursor_y = s.cursor_y + 1 }
    else if leb 0x20 c && ltb c 0x80
    then record s {
      video_memory =
          λ i. if i == s.cursor_y * 80 + s.cursor_x then bit_or c 0x0700 else s.video_memory i;
      cursor_x = s.cursor_x + 1;
    }
    else s

-- the end of a line
pub wrap : Monitor → Monitor
wrap s = if leb 80 s.cursor_x then record s { cursor_x = 0; cursor_y = s.cursor_y + 1 } else s

-- `monitor_put`
pub put : ℕ → Monitor → Monitor
unfolding place wrap scroll
put c s = scroll (wrap (place c s))

-- `monitor_clear`
pub clear : Monitor → Monitor
clear s = record {
  video_memory = λ i. if ltb i cells then blank else s.video_memory i;
  cursor_x = 0;
  cursor_y = 0;
}

-- `monitor_write`
pub write : List ℕ → Monitor → Monitor
unfolding put
write [] s = s
write (c ∷ cs) s = write cs (put c s)

-- `hexdigits`
abbrev pub hexdigits : List ℕ
hexdigits =
    b'0' ∷ b'1' ∷ b'2' ∷ b'3' ∷ b'4' ∷ b'5' ∷ b'6' ∷ b'7' ∷ b'8' ∷ b'9' ∷ b'a' ∷ b'b' ∷ b'c' ∷ b'd'
    ∷ b'e' ∷ b'f' ∷ []

-- the loop of `monitor_writeHex`, with the rounds left
pub hex_loop : ℕ → ℕ → List ℕ
hex_loop zero v = []
hex_loop (suc n) v = get_or hexdigits (v / 2 ^ 28) 0 ∷ hex_loop n (v * 16 % u32)

-- the characters of `monitor_writeHex`
pub hex_chars : ℕ → List ℕ
unfolding hex_loop
hex_chars v = b'0' ∷ b'x' ∷ hex_loop 8 v

-- `monitor_writeHex`
write_hex : ℕ → Monitor → Monitor
unfolding hex_chars write
write_hex v s = write (hex_chars v) s
