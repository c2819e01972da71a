-- ===== src/Smp/Wake.antt =====
-- The interrupts that reach the other processors.
use mathlib.Core.List.{append_assoc}
use barium.Prelude.{
  ℕ, zero, suc, ◌+◌, ◌*◌, ◌%◌, ◌/◌, ◌^◌, ◌<◌, ◌≡◌, refl, ◌∙◌, ap, List, [], ◌∷◌, ◌++◌, ◌==◌,
  if◌then◌else◌, get_or, length, arith, Bool-cases, inl, inr, All,
}
use barium.Acpi.{Acpi, acpi_get_lapic_id, acpi_get_cpu_count}
use barium.Smp.{
  SmpCall, copy_trampoline, set_pml4, set_entry_point, set_stack_top, clear_status, apic_write,
  apic_delay_ms, print_waking, print_ok, print_timeout, apic_send_ipi, await, awaited, wake_core,
  wake_cores, smp_init,
}

-- An interrupt between processors: to whom, and its command.
pub record Ipi : Type 0 where
  pub target : ℕ
  pub command : ℕ

-- What the APIC sends: a write of the high command register keeps the target, a write of the low one
-- sends the command to it.
unfoldable pub sent : (target : ℕ) → List SmpCall → List Ipi
sent t [] = []
sent t (apic_write reg value ∷ cs) =
    let aimed = sent (value / 2 ^ 24) cs in
    let later = sent t cs in
    if reg == 0x310
    then aimed
    else if reg == 0x300
    then record { target = t; command = value } ∷ later
    else later
sent t (copy_trampoline n ∷ cs) = sent t cs
sent t (set_pml4 n ∷ cs) = sent t cs
sent t (set_entry_point n ∷ cs) = sent t cs
sent t (set_stack_top n ∷ cs) = sent t cs
sent t (clear_status ∷ cs) = sent t cs
sent t (apic_delay_ms n ∷ cs) = sent t cs
sent t (print_waking n ∷ cs) = sent t cs
sent t (print_ok ∷ cs) = sent t cs
sent t (print_timeout ∷ cs) = sent t cs

-- The start of a processor at the address 0x8000: one INIT, and two STARTUPs with its page.
abbrev pub starts : ℕ → List Ipi
starts id =
    record { target = id; command = 0xC500 }
    ∷ record { target = id; command = 0x608 }
    ∷ record { target = id; command = 0x608 }
    ∷ []

-- The processors are started one after the other, all but the one that runs.
unfoldable pub all_starts : (bsp_id : ℕ) → List ℕ → List Ipi
all_starts bsp_id [] = []
all_starts bsp_id (id ∷ ids) =
    let later = all_starts bsp_id ids in if id == bsp_id then later else starts id ++ later

await-sent :
    (n : ℕ) (status : ℕ → ℕ) (i t : ℕ) (cs : List SmpCall)
    → sent t (await n status i ++ cs) ≡ sent t cs
unfolding await sent
await-sent zero status i t cs = refl
await-sent (suc n) status i t cs = elim (Bool-cases (status i == 0)) [
  | inl more ↦ rw more (await-sent n status (i + 1) t cs)
  | inr done ↦ rw done refl
]

verdict-sent :
    (r t : ℕ) (cs : List SmpCall)
    → sent t ((if r == 1 then print_ok else print_timeout) ∷ cs) ≡ sent t cs
unfolding sent
verdict-sent r t cs = elim (Bool-cases (r == 1)) [ inl e ↦ rw e refl | inr e ↦ rw e refl ]

wake_core-sent :
    (id stack : ℕ) (status : ℕ → ℕ) (t : ℕ) (cs : List SmpCall)
    → id < 256
    → sent t (wake_core id stack status ++ cs) ≡ starts id ++ sent id cs
unfolding wake_core apic_send_ipi sent
wake_core-sent id stack status t cs small =
    let e : id * 2 ^ 24 % 2 ^ 32 / 2 ^ 24 ≡ id = omega arith in
    let verdict = if awaited 100 status 0 == 1 then print_ok else print_timeout in
    let rest =
      ap (sent id) (append_assoc (await 100 status 0) (verdict ∷ []) cs)
      ∙ await-sent 100 status 0 id (verdict ∷ cs)
      ∙ verdict-sent (awaited 100 status 0) id cs in
    rw e (ap (λ r. starts id ++ r) rest)

wake_cores-sent :
    (ids : List ℕ) (s : Acpi) (bsp_id : ℕ) (stacks : ℕ → ℕ) (status : ℕ → ℕ → ℕ) (i t : ℕ)
    → ((j : ℕ) → j < length ids → acpi_get_lapic_id s (i + j) ≡ get_or ids j 0)
    → All (λ id. id < 256) ids
    → sent t (wake_cores (length ids) s bsp_id stacks status i) ≡ all_starts bsp_id ids
unfolding wake_cores all_starts
wake_cores-sent [] s bsp_id stacks status i t listed small = unfold sent in refl
wake_cores-sent (id ∷ ids) s bsp_id stacks status i t listed small =
    let here : acpi_get_lapic_id s i ≡ id =
      let e : i + 0 ≡ i = omega arith in rw e at (listed 0 (omega arith)) in
    let later = λ (u : ℕ).
      wake_cores-sent ids s bsp_id stacks status (i + 1) u
        (λ j lt. let e : i + 1 + j ≡ i + suc j = omega arith in rw e (listed (suc j) (omega arith)))
        small.1 in
    elim (Bool-cases (id == bsp_id)) [
      | inl self ↦ rw (here, self) (later t)
      | inr other ↦
          rw (here, other)
            (wake_core-sent id (stacks i) (status i) t _ small.0
              ∙ ap (λ r. starts id ++ r) (later id))
    ]

-- Whenever the other processors answer, if they do, `smp_init` sends each processor of the table but
-- the one it runs on, in order, one INIT and then two STARTUPs with the page of the trampoline, and
-- nothing else to anyone: if the ids of the table are bytes, as `acpi_init` leaves them.
pub smp_init-sent :
    (ids : List ℕ) (s : Acpi) (size pml4 entry_point bsp_id : ℕ) (stacks : ℕ → ℕ)
    (status : ℕ → ℕ → ℕ)
    → acpi_get_cpu_count s ≡ length ids
    → ((i : ℕ) → i < length ids → acpi_get_lapic_id s i ≡ get_or ids i 0)
    → All (λ id. id < 256) ids
    → sent 0 (smp_init size pml4 entry_point s bsp_id stacks status) ≡ all_starts bsp_id ids
unfolding smp_init sent
smp_init-sent ids s size pml4 entry_point bsp_id stacks status counted listed small = rw counted (
    wake_cores-sent ids s bsp_id stacks status 0 0
      (λ j lt. let e : 0 + j ≡ j = omega arith in rw e (listed j lt)) small)
