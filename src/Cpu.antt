-- ===== src/Cpu.antt =====
-- src/kernel/cpu.c: the table of the CPUs that run. The record of a CPU itself is modelled where it is
-- used; here it is an address and an id.
mod Table
mod Tests
use barium.Prelude.{
  ℕ, zero, suc, ◌+◌, Option, none, some, List, ◌==◌, ltb, leb, if◌then◌else◌, get_or, set,
  replicate,
}

-- What `kmalloc` returned for the CPU, and `cpu_id`.
pub record CpuEntry : Type 0 where
  pub address : ℕ
  pub cpu_id : ℕ

-- `cpus` and `cpu_count_actual`.
pub record CpuTable : Type 0 where
  pub cpus : List CpuEntry
  pub cpu_count_actual : ℕ

abbrev pub no_entry : CpuEntry
no_entry = record { address = 0; cpu_id = 0 }

abbrev pub empty_table : CpuTable
empty_table = record { cpus = replicate 64 no_entry; cpu_count_actual = 0 }

-- `cpu_init` on a CPU with its id from the APIC; `none` if it writes behind the table.
pub cpu_init : CpuTable → (address apic_id : ℕ) → Option CpuTable
cpu_init t address apic_id =
    if ltb t.cpu_count_actual 64
    then some (record {
      cpus = set t.cpus t.cpu_count_actual (record { address = address; cpu_id = apic_id });
      cpu_count_actual = t.cpu_count_actual + 1;
    })
    else none

-- The loop of `cpu_get_by_id` over `n` entries from the index `i` on.
unfoldable pub find_cpu : (n : ℕ) → CpuTable → (id i : ℕ) → Option CpuEntry
find_cpu zero t id i = none
find_cpu (suc n) t id i =
    let later = find_cpu n t id (i + 1) in
    let entry = get_or t.cpus i no_entry in if entry.cpu_id == id then some entry else later

pub cpu_get_by_id : CpuTable → (id : ℕ) → Option CpuEntry
cpu_get_by_id t id = find_cpu t.cpu_count_actual t id 0

-- An `index` below 0 is not modelled.
pub cpu_get_by_index : CpuTable → (index : ℕ) → Option CpuEntry
cpu_get_by_index t index =
    if leb t.cpu_count_actual index then none else some (get_or t.cpus index no_entry)

pub cpu_get_count : CpuTable → ℕ
cpu_get_count t = t.cpu_count_actual
