-- ===== src/Kernel/Gdt.antt =====
-- src/kernel/mem/gdt.c: the descriptor table. Loading it (`gdt_flush`, `tss_flush`) is assembly and
-- is left out; the address of `tss_entry` is an argument.
pub mod Decode
mod Tests
use Prim.Native.Nat.{bit_and, bit_or}
use grapes.Prelude.{ℕ, ◌+◌, ◌/◌, ◌%◌, ◌^◌, List, [], ◌∷◌}
use grapes.Word.{add32}

-- `struct gdt_entry`
pub record Entry : Type 0 where
  pub limit_low : ℕ
  pub base_low : ℕ
  pub base_middle : ℕ
  pub access : ℕ
  pub granularity : ℕ
  pub base_high : ℕ

-- The entry that `gdt_setGate` writes; `(x >> k) & 0xFF` is written by division and remainder.
pub set_gate : (base limit access gran : ℕ) → Entry
set_gate base limit access gran = record {
  base_low = base % 0x10000;
  base_middle = base / 2 ^ 16 % 0x100;
  base_high = base / 2 ^ 24 % 0x100;
  limit_low = limit % 0x10000;
  granularity = bit_or (limit / 2 ^ 16 % 0x10) (bit_and gran 0xF0);
  access = access % 0x100;
}

-- The fields of `struct tss_entry` that the kernel writes; `gdt_writeTss` clears all the others.
pub record Tss : Type 0 where
  pub esp0 : ℕ
  pub ss0 : ℕ
  pub cs : ℕ
  pub data_segments : ℕ

-- `sizeof(struct tss_entry)`: 25 words and two half words
abbrev pub tss_size : ℕ
tss_size = 104

-- `gdt_writeTss`: the entry and the new TSS
pub write_tss : (tss ss0 esp0 : ℕ) → Entry × Tss
unfolding set_gate
write_tss tss ss0 esp0 = (
  set_gate tss (add32 tss tss_size) 0xE9 0,
  record { esp0 = esp0; ss0 = ss0; cs = 0x0b; data_segments = 0x13 },
)

-- The six entries of `gdt_init`.
pub gdt_entries : (tss : ℕ) → List Entry
unfolding set_gate write_tss
gdt_entries tss =
    set_gate 0 0 0 0
    ∷ set_gate 0 0xFFFF_FFFF 0x9A 0xCF
    ∷ set_gate 0 0xFFFF_FFFF 0x92 0xCF
    ∷ set_gate 0 0xFFFF_FFFF 0xFA 0xCF
    ∷ set_gate 0 0xFFFF_FFFF 0xF2 0xCF
    ∷ (write_tss tss 0x10 0).0
    ∷ []

-- `gdt_setKernelStack`
set_kernel_stack : ℕ → Tss → Tss
set_kernel_stack esp0 t = record t { esp0 = esp0 }
