-- ===== src/Acpi/Tests.antt =====
-- Tables with two processors, one of them enabled, and another kind of entry between them.
use barium.Prelude.{
  ℕ, ◌+◌, ◌≤◌, ◌<◌, ◌≡◌, refl, true, false, some, List, [], ◌∷◌, ◌==◌, if◌then◌else◌, arith, get_or,
  length,
}
use barium.Text.{b_memcmp}
use barium.Acpi.{
  Bytes, Acpi, finished, no_cpus, read_le, bytes_at, find_madt, table_entries, table_length,
  xsdt_address, acpi_init, acpi_get_lapic_id, acpi_get_cpu_count,
}
use barium.Acpi.Walk.{Entry, local_apic, other, Holds, Lists, enabled_ids, acpi_init-Lists}

-- The root pointer at 0, its table at 100 with one pointer, the MADT at 200, and three entries.
abbrev firmware : Bytes
firmware a =
    if a == 24
    then 100
    else if a == 104
    then 44
    else if a == 136
    then 200
    else if a == 200
    then 65
    else if a == 201
    then 80
    else if a == 202
    then 73
    else if a == 203
    then 67
    else if a == 204
    then 66
    else if a == 245
    then 8
    else if a == 247
    then 5
    else if a == 248
    then 1
    else if a == 252
    then 1
    else if a == 253
    then 6
    else if a == 259
    then 8
    else if a == 261
    then 6
    else 0

abbrev entries : List Entry
entries = local_apic 5 true 8 ∷ other 1 6 ∷ local_apic 6 false 8 ∷ []

firmware_madt :
    find_madt
      (table_entries (table_length firmware (xsdt_address firmware 0)))
      firmware
      (xsdt_address firmware 0 + 36)
    ≡ some 200
unfolding find_madt table_entries read_le bytes_at b_memcmp
firmware_madt = refl

firmware-Holds : Holds firmware (200 + 44) entries (200 + table_length firmware 200)
unfolding read_le
firmware-Holds = (
  (refl, refl, refl, refl),
  omega arith,
  omega arith,
  (
    (refl, omega arith, refl),
    omega arith,
    omega arith,
    ((refl, refl, refl, refl), omega arith, omega arith, refl),
  ),
)

none-Lists : Lists no_cpus []
none-Lists = record { room = refl; counted = refl; listed = λ i lt. absurd (omega arith) }

few_enabled : length (enabled_ids entries) ≤ 64
unfolding enabled_ids
few_enabled = omega arith

acpi_init-Lists_example :
    (s' : Acpi) × (acpi_init 4 firmware 0 no_cpus ≡ finished s')
    × (acpi_get_cpu_count s' ≡ length (enabled_ids entries))
    × ((i : ℕ)
        → i < length (enabled_ids entries)
        → acpi_get_lapic_id s' i ≡ get_or (enabled_ids entries) i 0)
acpi_init-Lists_example =
    acpi_init-Lists 4 firmware 0 200 entries no_cpus firmware_madt firmware-Holds none-Lists
      few_enabled (omega arith)
