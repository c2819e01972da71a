-- ===== src/Smp/Tests.antt =====
-- Three processors, of which the first runs and the last does not answer.
use barium.Prelude.{
  ℕ, zero, suc, ◌<◌, ◌≡◌, ◌*◌, ◌++◌, refl, List, [], ◌∷◌, set, arith, ◌==◌, if◌then◌else◌, length,
  get_or, replicate,
}
use barium.Acpi.{Acpi, acpi_get_cpu_count, acpi_get_lapic_id}
use barium.Smp.{smp_init}
use barium.Smp.Wake.{sent, starts, all_starts, smp_init-sent}

abbrev ids : List ℕ
ids = 0 ∷ 2 ∷ 5 ∷ []

abbrev table : Acpi
table = record { cpu_apic_ids = set (set (set (replicate 64 0) 0 0) 1 2) 2 5; cpu_count = 3 }

-- The second processor answers at the third look.
abbrev status : ℕ → ℕ → ℕ
status i j = if i == 1 then (if j == 0 then 0 else if j == 1 then 0 else 1) else 0

two_started : all_starts 0 ids ≡ starts 2 ++ starts 5
unfolding all_starts
two_started = refl

table_lists : (i : ℕ) → i < length ids → acpi_get_lapic_id table i ≡ get_or ids i 0
unfolding acpi_get_lapic_id
table_lists zero h = refl
table_lists (suc zero) h = refl
table_lists (suc (suc zero)) h = refl
table_lists (suc (suc (suc i))) h = absurd (omega arith)

table_count : acpi_get_cpu_count table ≡ length ids
unfolding acpi_get_cpu_count
table_count = refl

smp_init-sent_example :
    sent 0 (smp_init 512 0x1000 0x10_0000 table 0 (λ i. 0x9000 * i) status) ≡ all_starts 0 ids
smp_init-sent_example =
    smp_init-sent ids table 512 0x1000 0x10_0000 0 (λ i. 0x9000 * i) status table_count table_lists
      (omega arith, (omega arith, (omega arith, tt)))
