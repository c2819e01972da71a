-- ===== src/Cpu/Tests.antt =====
-- Three CPUs.
use barium.Prelude.{ℕ, ◌≡◌, refl, some, List, [], ◌∷◌, length, arith}
use barium.Cpu.{CpuEntry, CpuTable, empty_table, cpu_get_by_id, cpu_get_by_index, cpu_get_count}
use barium.Cpu.Table.{init_all, first_with, at_index, init_all-table}

abbrev three : List CpuEntry
three =
    record { address = 0x1000; cpu_id = 0 }
    ∷ record { address = 0x2000; cpu_id = 2 }
    ∷ record { address = 0x3000; cpu_id = 5 }
    ∷ []

second : first_with 2 three ≡ some (record { address = 0x2000; cpu_id = 2 })
unfolding first_with
second = refl

init_all-table_example :
    (t : CpuTable) × (init_all three empty_table ≡ some t)
    × (cpu_get_count t ≡ length three)
    × ((id : ℕ) → cpu_get_by_id t id ≡ first_with id three)
    × ((i : ℕ) → cpu_get_by_index t i ≡ at_index three i)
init_all-table_example = init_all-table three (omega arith)
