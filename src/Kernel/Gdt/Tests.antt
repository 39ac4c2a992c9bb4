-- ===== src/Kernel/Gdt/Tests.antt =====
-- The descriptor table at concrete values.
use grapes.Prelude.{◌≡◌, refl, false, ◌==◌, arith, some, get_elem?}
use grapes.Kernel.Gdt.{write_tss, gdt_entries}
use grapes.Kernel.Gdt.Decode.{base, limit, write_tss-limit}

user_code :
    get_elem? (gdt_entries 0xE010_0000) 3
    ≡ some (record {
      limit_low = 0xFFFF;
      base_low = 0;
      base_middle = 0;
      access = 0xFA;
      granularity = 0xCF;
      base_high = 0;
    })
unfolding gdt_entries
user_code = refl

write_tss-limit_example :
    let e = (write_tss 0xE010_0000 0x10 0).0 in
    (base e ≡ 0xE010_0000) × (limit e ≡ 0x68) × ((limit e == 103) ≡ false)
write_tss-limit_example = write_tss-limit 0xE010_0000 0x10 0 (omega arith)
