-- ===== src/Acpi.antt =====
-- src/kernel/acpi.c: the processors that the firmware's tables list. Memory is read by bytes.
pub mod Walk
mod Tests
use barium.Prelude.{
  ℕ, zero, suc, ◌+◌, ◌-◌, ◌*◌, ◌/◌, ◌%◌, ◌^◌, Bool, not, ◌&&◌, Option, none, some, List, [], ◌∷◌,
  ◌==◌, ltb, leb, if◌then◌else◌, get_or, set, replicate,
}
use barium.Text.{b_memcmp, is_zero}

abbrev pub Bytes : Type 0
Bytes = ℕ → ℕ

-- A number of `n` bytes at an address, the lowest first.
pub read_le : ℕ → Bytes → ℕ → ℕ
read_le zero m a = 0
read_le (suc n) m a = m a + 256 * read_le n m (a + 1)

pub bytes_at : ℕ → Bytes → ℕ → List ℕ
bytes_at zero m a = []
bytes_at (suc n) m a = m a ∷ bytes_at n m (a + 1)

-- The fields of `acpi_rsdp_t`, `acpi_header_t`, `acpi_madt_entry_t` and `acpi_madt_local_apic_t`
-- that the code reads, at their offsets.
abbrev pub xsdt_address : Bytes → ℕ → ℕ
xsdt_address m rsdp = read_le 8 m (rsdp + 24)

abbrev pub table_length : Bytes → ℕ → ℕ
table_length m table = read_le 4 m (table + 4)

abbrev pub entry_type : Bytes → ℕ → ℕ
entry_type m ptr = m ptr

abbrev pub entry_length : Bytes → ℕ → ℕ
entry_length m ptr = m (ptr + 1)

abbrev pub lapic_id : Bytes → ℕ → ℕ
lapic_id m ptr = m (ptr + 3)

abbrev pub lapic_flags : Bytes → ℕ → ℕ
lapic_flags m ptr = read_le 4 m (ptr + 4)

-- `cpu_apic_ids` and `cpu_count`.
pub record Acpi : Type 0 where
  pub cpu_apic_ids : List ℕ
  pub cpu_count : ℕ

abbrev pub no_cpus : Acpi
no_cpus = record { cpu_apic_ids = replicate 64 0; cpu_count = 0 }

-- "APIC"
abbrev pub madt_signature : List ℕ
madt_signature = 65 ∷ 80 ∷ 73 ∷ 67 ∷ []

-- The search for the MADT in `n` entries of the table of pointers, from the pointer at `a` on.
pub find_madt : ℕ → Bytes → ℕ → Option ℕ
find_madt zero m a = none
find_madt (suc n) m a =
    let later = find_madt n m (a + 8) in
    let header = read_le 8 m a in
    if is_zero (b_memcmp 4 (bytes_at 4 m header) madt_signature 0) then some header else later

-- How the walk over the MADT ends: at its end, with a processor behind the 64 of the array, or not
-- within the fuel.
pub data Outcome : Type 0 where
  finished : Acpi → Outcome
  overrun : Outcome
  looping : Outcome

-- One entry. The processor is written behind the ones found; `none` if there is no room.
pub take_entry : Bytes → ℕ → Acpi → Option Acpi
take_entry m ptr s =
    if entry_type m ptr == 0 && not (lapic_flags m ptr % 2 == 0)
    then (if ltb s.cpu_count 64
        then some (record {
          cpu_apic_ids = set s.cpu_apic_ids s.cpu_count (lapic_id m ptr);
          cpu_count = s.cpu_count + 1;
        })
        else none)
    else some s

pub walk_madt : (fuel : ℕ) → Bytes → (ptr end : ℕ) → Acpi → Outcome
walk_madt zero m ptr end s = looping
walk_madt (suc fuel) m ptr end s =
    let next = walk_madt fuel m (ptr + entry_length m ptr) end in
    if ltb ptr end
    then elim (take_entry m ptr s) [ none ↦ overrun | some s' ↦ next s' ]
    else finished s

-- The number of pointers, an `int`: a length that is too small wraps, and then is negative or huge.
pub table_entries : ℕ → ℕ
table_entries length =
    let n = (length + 2 ^ 64 - 36) % 2 ^ 64 / 8 % 2 ^ 32 in if ltb n (2 ^ 31) then n else 0

pub acpi_init : (fuel : ℕ) → Bytes → (rsdp : ℕ) → Acpi → Outcome
acpi_init fuel m rsdp s =
    let xsdt = xsdt_address m rsdp in
    elim (find_madt (table_entries (table_length m xsdt)) m (xsdt + 36)) [
      | none ↦ finished s
      | some madt ↦ walk_madt fuel m (madt + 44) (madt + table_length m madt) s
    ]

unfoldable pub acpi_get_lapic_id : Acpi → ℕ → ℕ
acpi_get_lapic_id s index = get_or s.cpu_apic_ids index 0

unfoldable pub acpi_get_cpu_count : Acpi → ℕ
acpi_get_cpu_count s = s.cpu_count
