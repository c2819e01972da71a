-- ===== src/Smp.antt =====
-- src/kernel/smp.c and what it calls of src/kernel/apic.c: the start of the other processors. What
-- the loader of a processor does with its data is assembly: when it answers is an argument.
mod Wake
mod Tests
use barium.Prelude.{ℕ, zero, suc, ◌+◌, ◌*◌, ◌%◌, ◌/◌, ◌^◌, List, [], ◌∷◌, ◌++◌, ◌==◌, if◌then◌else◌}
use barium.Acpi.{Acpi, acpi_get_lapic_id, acpi_get_cpu_count}

-- The calls of the code: copying the trampoline, writing the fields of `smp_data_t`, writing a
-- register of the APIC, waiting, and printing.
pub data SmpCall : Type 0 where
  copy_trampoline : (size : ℕ) → SmpCall
  set_pml4 : ℕ → SmpCall
  set_entry_point : ℕ → SmpCall
  set_stack_top : ℕ → SmpCall
  clear_status : SmpCall
  apic_write : (reg value : ℕ) → SmpCall
  apic_delay_ms : ℕ → SmpCall
  print_waking : (lapic_id : ℕ) → SmpCall
  print_ok : SmpCall
  print_timeout : SmpCall

-- `lapic_id << 24` in 32 bits.
pub apic_send_ipi : (lapic_id value : ℕ) → List SmpCall
apic_send_ipi lapic_id value =
    apic_write 0x310 (lapic_id * 2 ^ 24 % 2 ^ 32) ∷ apic_write 0x300 value ∷ []

-- The loop that waits for the status, which `status i` gives at the `i`th look.
pub await : (timeout : ℕ) → (status : ℕ → ℕ) → (i : ℕ) → List SmpCall
await zero status i = []
await (suc timeout) status i =
    let later = await timeout status (i + 1) in
    if status i == 0 then apic_delay_ms 10 ∷ later else []

-- The status at the look behind the loop.
pub awaited : (timeout : ℕ) → (status : ℕ → ℕ) → (i : ℕ) → ℕ
awaited zero status i = status (i + 1)
awaited (suc timeout) status i =
    let later = awaited timeout status (i + 1) in if status i == 0 then later else status (i + 1)

-- The body of the loop of `smp_init`; `stack` is what `kmalloc` returns.
pub wake_core : (lapic_id stack : ℕ) → (status : ℕ → ℕ) → List SmpCall
wake_core lapic_id stack status =
    print_waking lapic_id
      ∷ set_stack_top ((stack + 8192) % 2 ^ 64)
      ∷ clear_status
      ∷ apic_send_ipi lapic_id 0xC500
    ++ (apic_delay_ms 10 ∷ apic_send_ipi lapic_id (0x600 + 0x8000 / 2 ^ 12)
        ++ (apic_delay_ms 1 ∷ apic_send_ipi lapic_id (0x600 + 0x8000 / 2 ^ 12)
            ++ (await 100 status 0
                ++ ((if awaited 100 status 0 == 1 then print_ok else print_timeout) ∷ []))))

-- The loop, over `n` processors of the table from the index `i` on.
pub wake_cores :
    (n : ℕ) → Acpi → (bsp_id : ℕ) → (stacks : ℕ → ℕ) → (status : ℕ → ℕ → ℕ) → (i : ℕ) → List SmpCall
wake_cores zero s bsp_id stacks status i = []
wake_cores (suc n) s bsp_id stacks status i =
    let later = wake_cores n s bsp_id stacks status (i + 1) in
    let lapic_id = acpi_get_lapic_id s i in
    if lapic_id == bsp_id then later else wake_core lapic_id (stacks i) (status i) ++ later

-- `smp_init`, with the size of the trampoline, the root of the page tables and the address of
-- `smp_ap_entry`.
pub smp_init :
    (trampoline_size pml4 entry_point : ℕ)
    → Acpi
    → (bsp_id : ℕ) → (stacks : ℕ → ℕ) → (status : ℕ → ℕ → ℕ) → List SmpCall
smp_init trampoline_size pml4 entry_point s bsp_id stacks status =
    copy_trampoline trampoline_size
    ∷ set_pml4 pml4
    ∷ set_entry_point entry_point
    ∷ wake_cores (acpi_get_cpu_count s) s bsp_id stacks status 0
