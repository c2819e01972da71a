-- ===== src/Apic.antt =====
-- src/kernel/apic.c: the local APIC and its timer, which apic_init measures against the other timer
-- of the machine (the PIT). What the registers and ports answer is an argument; what the code writes
-- is a list.
pub mod Calibrate
mod Tests
use Prim.Native.Nat.{bit_or}
use barium.Prelude.{
  ℕ, zero, suc, ◌+◌, ◌-◌, ◌*◌, ◌/◌, ◌%◌, ◌^◌, Option, none, some, List, [], ◌∷◌, ◌++◌, ◌==◌, ltb,
  if◌then◌else◌,
}
use barium.Vmm.{Vmm, vmm_map}

-- The calls: a write of a register of the APIC, and of a port. The reads are not listed.
pub data ApicCall : Type 0 where
  apic_write : (reg value : ℕ) → ApicCall
  outb : (port value : ℕ) → ApicCall

abbrev pub apic_base : ℕ
apic_base = 0xFEE00000

-- The loop of `apic_init`: at each look it latches the counter of the PIT and reads its two bytes,
-- `pit i` at the `i`th look, until it has wrapped. The number of the look that ends it.
unfoldable pub await_wrap : (fuel : ℕ) → (pit : ℕ → ℕ × ℕ) → (last_pit i : ℕ) → Option ℕ
await_wrap zero pit last_pit i = none
await_wrap (suc fuel) pit last_pit i =
    let (l, h) = pit i in
    let now = (h * 256 + l) % 2 ^ 16 in
    let later = await_wrap fuel pit now (i + 1) in if ltb last_pit now then some i else later

-- The latches of the looks.
unfoldable pub latches : ℕ → List ApicCall
latches zero = []
latches (suc n) = outb 0x43 0x00 ∷ latches n

-- The page tables, `ticks_per_ms`, and the calls.
pub record ApicSetup : Type 0 where
  pub vmm : Vmm
  pub ticks_per_ms : ℕ
  pub calls : List ApicCall

-- All that `apic_init` does when the look `i` ends the loop. `spurious` is what its register holds,
-- and `current i` the timer's count behind the `i`th look.
unfoldable pub apic_setup : Vmm → (pml4 spurious : ℕ) → (current : ℕ → ℕ) → (i : ℕ) → ApicSetup
apic_setup s pml4 spurious current i = record {
  vmm = vmm_map s pml4 apic_base apic_base 0x13;
  ticks_per_ms = (0xFFFFFFFF - current i) / 10;
  calls =
      apic_write 0x0F0 (bit_or spurious 0x1FF)
        ∷ apic_write 0x3E0 0x03
        ∷ apic_write 0x380 0xFFFFFFFF
        ∷ outb 0x43 0x30
        ∷ outb 0x40 0x00
        ∷ outb 0x40 0x4E
        ∷ latches (i + 1)
      ++ (apic_write 0x380 0 ∷ []);
}

unfoldable pub apic_init :
    (fuel : ℕ)
    → Vmm
    → (pml4 spurious : ℕ) → (pit : ℕ → ℕ × ℕ) → (current : ℕ → ℕ) → Option ApicSetup
apic_init fuel s pml4 spurious pit current = elim (await_wrap fuel pit 0xFFFF 0) [
  | none ↦ none
  | some i ↦ some (apic_setup s pml4 spurious current i)
]

-- The timer of a CPU, every ten times `ticks_per_ms` at vector 0x20.
pub apic_init_ap : (spurious ticks_per_ms : ℕ) → List ApicCall
apic_init_ap spurious ticks_per_ms =
    apic_write 0x0F0 (bit_or spurious 0x1FF)
    ∷ apic_write 0x320 (bit_or 0x20 0x20000)
    ∷ apic_write 0x3E0 0x03
    ∷ apic_write 0x380 (ticks_per_ms * 10 % 2 ^ 32)
    ∷ []

pub apic_eoi : List ApicCall
apic_eoi = apic_write 0x0B0 0 ∷ []

-- `id` is what its register holds.
pub apic_get_id : (id : ℕ) → ℕ
apic_get_id id = id / 2 ^ 24

-- `apic_delay_ms`: the write that starts the timer, and the looks until `current i` is 0.
unfoldable pub await_zero : (fuel : ℕ) → (current : ℕ → ℕ) → (i : ℕ) → Option ℕ
await_zero zero current i = none
await_zero (suc fuel) current i =
    let later = await_zero fuel current (i + 1) in if current i == 0 then some i else later

pub apic_delay_ms : (fuel ticks_per_ms ms : ℕ) → (current : ℕ → ℕ) → Option (ℕ × List ApicCall)
apic_delay_ms fuel ticks_per_ms ms current = elim (await_zero fuel current 0) [
  | none ↦ none
  | some i ↦ some (i, apic_write 0x380 (ticks_per_ms * ms % 2 ^ 32) ∷ [])
]
