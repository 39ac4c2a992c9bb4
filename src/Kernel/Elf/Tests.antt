-- ===== src/Kernel/Elf/Tests.antt =====
-- A program with one segment, of 16 bytes in the file and 64 in memory.
use grapes.Prelude.{◌≡◌, refl, ◌==◌, if◌then◌else◌, false}
use grapes.Library.Strings.{Memory}
use grapes.Kernel.Process.Sample.{no_segments}
use grapes.Kernel.Segments.{Segments}
use grapes.Kernel.Elf.{ProgramHeader, Space, elf_check, program_header}

-- The file lies at 0xE0000000, and its only program header 52 bytes behind that.
abbrev memory : Memory
memory a =
    if a == 0xE0000000
    then 0x7F
    else if a == 0xE0000001
    then b'E'
    else if a == 0xE0000002
    then b'L'
    else if a == 0xE0000003
    then b'F'
    else if a == 0xE0000034
    then 1
    else if a == 0xE0000039
    then 1
    else if a == 0xE000003E
    then 0x40
    else if a == 0xE0000044
    then 16
    else if a == 0xE0000048
    then 64
    else if a == 0xE000004C
    then 6
    else 0

abbrev header : ProgramHeader
header = program_header memory 0xE0000034

abbrev space : Space
space = record { segments = no_segments; memory = memory; present = λ n. false }

is_program : elf_check 0xE0000000 memory ≡ 0
unfolding elf_check
is_program = refl
