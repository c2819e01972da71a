-- ===== src/Gdt/Tests.antt =====
-- The table for a task state segment at a high address.
use barium.Prelude.{◌≡◌, refl, arith}
use barium.Gdt.{descriptor, gdt_init, gdt_set_entry_at, gdt_set_tss_at}
use barium.Gdt.Table.{IsTable, entry, tss_base_of, gdt_init-IsTable}

high_task :
    let s = gdt_init 0x1000 0xFFFF_8000_1234_5678 in
    tss_base_of (entry s 5) (entry s 6) ≡ 0xFFFF_8000_1234_5678
unfolding gdt_init gdt_set_entry_at gdt_set_tss_at descriptor
high_task = refl

gdt_init-IsTable_example : IsTable (gdt_init 0x1000 0xFFFF_8000_1234_5678) 0xFFFF_8000_1234_5678
gdt_init-IsTable_example = gdt_init-IsTable 0x1000 0xFFFF_8000_1234_5678 (omega arith)
