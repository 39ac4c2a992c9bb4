-- ===== src/Kernel/Elf.antt =====
-- src/kernel/linker/elf.c: programs are checked and loaded. `memory` is what the address space of
-- the process shows, with the kernel's own part, where the file lies. A write to a page that is not
-- there faults: at an address in a map the fault is served by Kernel/Segments/Faults, with frames
-- enough, and otherwise it ends the kernel. `fuel` bounds the walk through
-- the list of maps. `memcpy` and `memset` of
-- src/kernel/lib/stdlib.c have the text of those of Library/Strings. What `kmalloc` returns for the
-- segment and the map of header `i` is an argument.
pub mod Load
mod Tests
use grapes.Prelude.{
  ℕ, zero, suc, ◌+◌, ◌-◌, ◌*◌, ◌/◌, ◌%◌, ◌^◌, Bool, true, false, ◌&&◌, ◌||◌, not, Option, none,
  some, ltb, ◌==◌, if◌then◌else◌,
}
use grapes.Prelude.Pointers.{Ptr, null, update}
use grapes.Prelude.Runs.{Ran, done, failed, exhausted, Action, within, next, return, ◌>>=◌, ◌>>◌}
use grapes.Word.{u32, add32, sub32}
use grapes.Library.Strings.{Memory, memcpy, memset}
use grapes.Kernel.Segments.Faults.{find_map}
use grapes.Kernel.Segments.{Segments, simpleseg_make, seg_map}

-- the little-endian words of `struct elf_ehdr` and `struct elf_phdr`
abbrev pub half : Memory → ℕ → ℕ
half m a = m a + 0x100 * m (a + 1)

abbrev pub word : Memory → ℕ → ℕ
word m a = half m a + 0x10000 * half m (a + 2)

-- `struct elf_phdr`, without `p_paddr` and `p_align`, which nothing reads
pub record ProgramHeader : Type 0 where
  pub type : ℕ
  pub offset : ℕ
  pub vaddr : ℕ
  pub filesz : ℕ
  pub memsz : ℕ
  pub flags : ℕ

abbrev pub program_header : Memory → ℕ → ProgramHeader
program_header m at = record {
  type = word m at;
  offset = word m (at + 4);
  vaddr = word m (at + 8);
  filesz = word m (at + 16);
  memsz = word m (at + 20);
  flags = word m (at + 24);
}

-- `PT_LOAD`
abbrev pub pt_load : ℕ
pt_load = 1

-- `p_flags & PF_W`
abbrev pub writable : ℕ → Bool
writable flags = flags / 2 % 2 == 1

-- The segments, the bytes that the process sees, and which pages of its directory are there.
pub record Space : Type 0 where
  pub segments : Segments
  pub memory : Memory
  pub present : ℕ → Bool

-- `elf_check`: 0 if it is a program
pub elf_check : (file : ℕ) → Memory → ℕ
elf_check file m =
    if (m file == 0x7F)
      && ((m (file + 1) == b'E') && ((m (file + 2) == b'L') && (m (file + 3) == b'F')))
    then 0
    else 1

-- A fault at the address is served: it lies in a map of the directory.
pub served : (fuel : ℕ) → (pd : Ptr) → (a : ℕ) → Segments → Bool
served fuel pd a s = elim (find_map fuel a (s.mapped_segs pd) s) [
  | done map t ↦ not (map == null)
  | failed ↦ false
  | exhausted ↦ false
]

-- The bytes from `a` on are written one after the other, with the pages `p` there: the pages that are
-- there then, or none if a fault is not served.
pub touch_all : (fuel n : ℕ) → (pd : Ptr) → (a : ℕ) → Segments → (ℕ → Bool) → Option (ℕ → Bool)
touch_all fuel zero pd a s p = some p
touch_all fuel (suc n) pd a s p =
    let rest = touch_all fuel n pd (a + 1) s (update p (a / 0x1000) true) in
    if p (a / 0x1000) || served fuel pd a s then rest else none

abbrev pub with_memory : Memory → Space → Option (ℕ → Bool) → Ran Space (Unit {0})
with_memory m s none = failed
with_memory m s (some p) = done tt (record s { memory = m; present = p })

-- The bytes of a segment, and those behind them that are cleared. `memcpy` and `memset` take an
-- `int`: of a negative count `memcpy` copies on until it faults, and `memset` clears nothing.
pub fill : (fuel : ℕ) → (pd : Ptr) → (file : ℕ) → ProgramHeader → Action Space (Unit {0})
fill fuel pd file h s =
    let copied = memcpy h.vaddr (file + h.offset) h.filesz s.memory in
    let rest = h.memsz - h.filesz in
    let at = add32 h.vaddr h.memsz in
    if ltb 0x7FFFFFFF h.filesz
    then failed
    else next (with_memory copied s (touch_all fuel h.filesz pd h.vaddr s.segments s.present))
        (λ _ t.
          if not (ltb h.filesz h.memsz) || ltb 0x7FFFFFFF rest
          then done tt t
          else with_memory (memset at 0 rest t.memory) t
              (touch_all fuel rest pd at t.segments t.present))

-- one program header of `elf_load`
pub load_segment :
    (fuel : ℕ) → (seg map pd : Ptr) → (file : ℕ) → ProgramHeader → Action Space (Unit {0})
load_segment fuel seg map pd file h s =
    next
      (within (λ t. record s { segments = t })
        (seg_map map seg pd 0 (simpleseg_make seg h.vaddr h.memsz (writable h.flags) s.segments)))
      (λ m t. fill fuel pd file h t)

-- The loop of `elf_load`, from header `i` on with `n` left.
pub load_loop :
    (fuel : ℕ)
    → (seg map : ℕ → Ptr) → (pd : Ptr) → (file headers : ℕ) → (n i : ℕ) → Action Space (Unit {0})
load_loop fuel seg map pd file headers zero i s = done tt s
load_loop fuel seg map pd file headers (suc n) i s =
    let h = program_header s.memory (headers + 32 * i) in
    let rest = load_loop fuel seg map pd file headers n (i + 1) in
    if h.type == pt_load then (load_segment fuel (seg i) (map i) pd file h >> rest) s else rest s

-- `elf_load` for the directory of the process: the entry point, or 0
pub elf_load : (fuel : ℕ) → (seg map : ℕ → Ptr) → (pd : Ptr) → (file : ℕ) → Action Space ℕ
elf_load fuel seg map pd file s =
    let headers = file + word s.memory (file + 28) in
    if not (elf_check file s.memory == 0)
    then done 0 s
    else (load_loop fuel seg map pd file headers (half s.memory (file + 44)) 0 >>= λ _ t.
          done (word t.memory (file + 24)) t)
        s
