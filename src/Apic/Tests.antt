-- ===== src/Apic/Tests.antt =====
-- A PIT that begins again at the fourth look.
use barium.Prelude.{
  ℕ, zero, suc, ◌+◌, ◌-◌, ◌*◌, ◌<◌, ◌≤◌, ◌≡◌, ◌≢◌, refl, some, [], ◌∷◌, ◌==◌, if◌then◌else◌, arith,
}
use barium.Vmm.{vmm_get_phys, with_flags}
use barium.Vmm.Contract.{page_number}
use barium.Vmm.Samples.{blank, kinds, blank-IsVmm, many_left}
use barium.Vmm.Entry.{HasEntry}
use barium.Apic.{apic_base, await_wrap, ApicSetup, apic_init, await_zero}
use barium.Apic.Calibrate.{counter, idle, pit_count, timer_counts, Wraps, apic_init-Wraps}

abbrev pit : ℕ → ℕ × ℕ
pit i =
    if i == 0 then (0, 78) else if i == 1 then (16, 40) else if i == 2 then (1, 0) else (240, 255)

abbrev current : ℕ → ℕ
current i = 0xFFFFFFFF - 1000000 * (i + 1)

third : await_wrap 10 pit 0xFFFF 0 ≡ some 3
unfolding await_wrap
third = refl

zero_at_two : await_zero 5 (λ i. 2 - i) 0 ≡ some 2
unfolding await_zero
zero_at_two = refl

pit_falls : (i : ℕ) → i + 1 < 3 → counter pit (i + 1) ≤ counter pit i
pit_falls zero h = omega arith
pit_falls (suc zero) h = omega arith
pit_falls (suc (suc i)) h = absurd (omega arith)

pit-Wraps : Wraps pit 3
pit-Wraps = record {
  falls = pit_falls;
  wraps = λ i e. let at : i ≡ 2 = omega (arith, e) in rw at (omega arith);
}

apic_init-Wraps_example :
    let elapsed = 0xFFFFFFFF - current 3 in
    (r : ApicSetup) × (apic_init 10 blank (1 * 4096) 0x1FF pit current ≡ some r)
    × ((count : ℕ) → pit_count idle count r.calls ≡ 19968)
    × (timer_counts r.calls ≡ 0xFFFFFFFF ∷ 0 ∷ [])
    × (r.ticks_per_ms * 10 ≤ elapsed)
    × (elapsed < r.ticks_per_ms * 10 + 10)
    × (vmm_get_phys r.vmm.words (1 * 4096) apic_base ≡ apic_base)
    × HasEntry r.vmm.words 1 apic_base (with_flags apic_base 0x13)
    × ((a : ℕ)
        → page_number a ≢ page_number apic_base
        → vmm_get_phys r.vmm.words (1 * 4096) a ≡ vmm_get_phys blank.words (1 * 4096) a)
apic_init-Wraps_example =
    apic_init-Wraps 10 blank kinds 1 0x1FF pit current 3 blank-IsVmm refl (omega (arith, many_left))
      pit-Wraps (omega arith) (omega arith)
