-- ===== src/Library/Strings.antt =====
-- src/library/std/string.c: strings and memory. Memory is a function from addresses to bytes; a
-- loop up to a terminator runs on fuel, and gives none if it meets no terminator within it.
-- `memsetw` and the allocation in `strdup` are left out.
pub mod Length
pub mod Copy
pub mod Search
mod Tests
use grapes.Prelude.{
  ℕ, zero, suc, ◌+◌, ◌-◌, ◌*◌, ◌/◌, ◌%◌, Bool, not, ◌&&◌, Option, none, some, ◌==◌, if◌then◌else◌,
}
use grapes.Prelude.Pointers.{update}

abbrev pub Memory : Type 0
Memory = ℕ → ℕ

-- `strlen`, from index `i` on
pub strlen_loop : (fuel : ℕ) → (str i : ℕ) → Memory → Option ℕ
strlen_loop zero str i m = none
strlen_loop (suc fuel) str i m =
    let rest = strlen_loop fuel str (i + 1) m in
    if not (m (str + i) == 0) then rest else some (i + 1)

-- `strlen`
pub strlen : (fuel : ℕ) → (str : ℕ) → Memory → Option ℕ
unfolding strlen_loop
strlen fuel str m = strlen_loop fuel str 0 m

-- `strchr`: the address, or 0
pub strchr : (fuel : ℕ) → (str c : ℕ) → Memory → Option ℕ
strchr zero str c m = none
strchr (suc fuel) str c m =
    let rest = strchr fuel (str + 1) c m in
    if m str == 0 then some 0 else if m str == c then some str else rest

-- `strcmp`: the two bytes whose difference it returns
pub strcmp : (fuel : ℕ) → (s1 s2 : ℕ) → Memory → Option (ℕ × ℕ)
strcmp zero s1 s2 m = none
strcmp (suc fuel) s1 s2 m =
    let rest = strcmp fuel (s1 + 1) (s2 + 1) m in
    if not (m s1 == 0) && (m s1 == m s2) then rest else some (m s1, m s2)

-- the loop over bytes of `memcpy`, from index `i` on with `n` left
pub copy_bytes : (n i dest src : ℕ) → Memory → Memory
copy_bytes zero i dest src m = m
copy_bytes (suc n) i dest src m = copy_bytes n (i + 1) dest src (update m (dest + i) (m (src + i)))

-- one word of `memcpy`: four bytes are read, then written
abbrev pub copy_word : (dest src : ℕ) → Memory → Memory
copy_word dest src m =
    update
      (update (update (update m dest (m src)) (dest + 1) (m (src + 1))) (dest + 2) (m (src + 2)))
      (dest + 3) (m (src + 3))

-- the loop over words
pub copy_words : (n i dest src : ℕ) → Memory → Memory
copy_words zero i dest src m = m
copy_words (suc n) i dest src m =
    copy_words n (i + 1) dest src (copy_word (dest + 4 * i) (src + 4 * i) m)

-- `memcpy`
pub memcpy : (dest src count : ℕ) → Memory → Memory
unfolding copy_bytes copy_words
memcpy dest src count m =
    copy_bytes (count % 4) (count - count % 4) dest src (copy_words (count / 4) 0 dest src m)

-- `memset`, from index `i` on with `n` left
pub set_bytes : (n i dest val : ℕ) → Memory → Memory
set_bytes zero i dest val m = m
set_bytes (suc n) i dest val m = set_bytes n (i + 1) dest val (update m (dest + i) val)

pub memset : (dest val count : ℕ) → Memory → Memory
unfolding set_bytes
memset dest val count m = set_bytes count 0 dest val m

-- `strcpy`: the value it returns, and memory
pub strcpy : (fuel : ℕ) → (dest src : ℕ) → Memory → Option (ℕ × Memory)
unfolding strlen memcpy
strcpy fuel dest src m = elim (strlen fuel src m) [
  | none ↦ none
  | some n ↦ some (src, memcpy dest src (n + 1) m)
]

-- the loop of `strcat`
pub append_loop : (fuel : ℕ) → (dest2 src : ℕ) → Memory → Option Memory
append_loop zero dest2 src m = none
append_loop (suc fuel) dest2 src m =
    let rest = append_loop fuel (dest2 + 1) (src + 1) (update m dest2 (m src)) in
    if m src == 0 then some (update m dest2 0) else rest

-- `strcat`: memory
strcat : (fuel : ℕ) → (dest src : ℕ) → Memory → Option Memory
unfolding strlen append_loop
strcat fuel dest src m = elim (strlen fuel dest m) [
  | none ↦ none
  | some n ↦ append_loop fuel (dest + n - 1) src m
]
