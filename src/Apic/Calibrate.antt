-- ===== src/Apic/Calibrate.antt =====
-- What apic_init measures and maps.
use barium.Prelude.{
  ℕ, zero, suc, ◌+◌, ◌-◌, ◌*◌, ◌/◌, ◌%◌, ◌^◌, ◌≤◌, ◌<◌, ◌≡◌, ◌≢◌, refl, ap, true, false, some, ltb,
  List, [], ◌∷◌, ◌++◌, ◌==◌, ◌&&◌, if◌then◌else◌, arith,
}
use barium.Pmm.One.{pages_left}
use barium.Vmm.{Vmm, vmm_get_phys, with_flags}
use barium.Vmm.Tables.{Kinds}
use barium.Vmm.Next.{IsVmm}
use barium.Vmm.Contract.{page_number, vmm_map-Mapped}
use barium.Vmm.Entry.{HasEntry, vmm_map-HasEntry}
use barium.Apic.{
  ApicCall, apic_write, outb, latches, apic_base, await_wrap, ApicSetup, apic_setup, apic_init,
}

abbrev pub counter : (ℕ → ℕ × ℕ) → ℕ → ℕ
counter pit i = ((pit i).1 * 256 + (pit i).0) % 2 ^ 16

-- The PIT counts down from look to look, and at the look `n` it has begun again from the top.
pub record Wraps (pit : ℕ → ℕ × ℕ) (n : ℕ) : Type 0 where
  pub falls : (i : ℕ) → i + 1 < n → counter pit (i + 1) ≤ counter pit i
  pub wraps : (i : ℕ) → i + 1 ≡ n → counter pit i < counter pit n

await_wrap_from :
    (k : ℕ) (fuel : ℕ) (pit : ℕ → ℕ × ℕ) (last i n : ℕ)
    → i + k ≡ n
    → k < fuel
    → ((j : ℕ) → i ≤ j → j + 1 < n → counter pit (j + 1) ≤ counter pit j)
    → ((j : ℕ) → i ≤ j → j + 1 ≡ n → counter pit j < counter pit n)
    → (i < n → counter pit i ≤ last)
    → (i ≡ n → last < counter pit n)
    → await_wrap fuel pit last i ≡ some n
unfolding await_wrap
await_wrap_from k zero pit last i n at enough falls wraps first end = absurd (omega arith)
await_wrap_from zero (suc fuel) pit last i n at enough falls wraps first end =
    let e : i ≡ n = omega arith in
    let go : ltb last (counter pit i) ≡ true = ground (arith, end e, ap (counter pit) e) in
    rw go (ap some e)
await_wrap_from (suc k) (suc fuel) pit last i n at enough falls wraps first end =
    let stay : ltb last (counter pit i) ≡ false = ground (arith, first (omega arith)) in
    rw stay (
      await_wrap_from k fuel pit (counter pit i) (i + 1) n (omega arith) (omega arith)
        (λ j lo. falls j (omega arith)) (λ j lo. wraps j (omega arith))
        (λ lt. falls i (omega arith) lt) (λ e. wraps i (omega arith) e))

-- How far the PIT is with its count: it waits for a command, for the low byte, or for the high one.
pub data Phase : Type 0 where
  idle low : Phase
  high : ℕ → Phase

-- The count that the writes load into counter 0 of the PIT, as its data sheet has it: a command for that
-- counter that asks for both bytes, and then the bytes, the low one first. `count` is what it had.
unfoldable pub pit_count : Phase → (count : ℕ) → List ApicCall → ℕ
pit_count phase count [] = count
pit_count phase count (apic_write reg value ∷ cs) = pit_count phase count cs
pit_count idle count (outb port value ∷ cs) =
    let asked = pit_count low count cs in
    let as_before = pit_count idle count cs in
    if port == 0x43 && (value / 64 == 0 && value / 16 % 4 == 3) then asked else as_before
pit_count low count (outb port value ∷ cs) =
    let given = pit_count (high value) count cs in
    let as_before = pit_count low count cs in if port == 0x40 then given else as_before
pit_count (high l) count (outb port value ∷ cs) =
    let loaded = pit_count idle (value * 256 + l) cs in
    let as_before = pit_count (high l) count cs in if port == 0x40 then loaded else as_before

-- The counts that the writes give to the timer of the APIC, in order.
unfoldable pub timer_counts : List ApicCall → List ℕ
timer_counts [] = []
timer_counts (apic_write reg value ∷ cs) =
    let later = timer_counts cs in if reg == 0x380 then value ∷ later else later
timer_counts (outb port value ∷ cs) = timer_counts cs

-- The looks load nothing.
latches_load :
    (n count : ℕ) (cs : List ApicCall)
    → (pit_count idle count (latches n ++ cs) ≡ pit_count idle count cs)
      × (timer_counts (latches n ++ cs) ≡ timer_counts cs)
unfolding latches pit_count timer_counts
latches_load zero count cs = (refl, refl)
latches_load (suc n) count cs = latches_load n count cs

setup_loads :
    (s : Vmm) (pml4 spurious : ℕ) (current : ℕ → ℕ) (i count : ℕ)
    → let r = apic_setup s pml4 spurious current i in
      (pit_count idle count r.calls ≡ 19968) × (timer_counts r.calls ≡ 0xFFFFFFFF ∷ 0 ∷ [])
unfolding apic_setup pit_count timer_counts
setup_loads s pml4 spurious current i count =
    let l = latches_load (i + 1) 19968 (apic_write 0x380 0 ∷ []) in
    (l.0, ap (λ cs. 0xFFFFFFFF ∷ cs) l.1)

-- When the PIT counts down over the looks and has begun again at one of them, `apic_init` ends there.
-- It has loaded 19968 into the PIT, which at 1193182 Hz are 16.7 ms, and started the timer of the APIC
-- from its greatest count and stopped it; `ticks_per_ms` is a tenth of the ticks from that start to that
-- look, rounded down. While four pages are left it has mapped the page of the APIC to itself, present,
-- writable and past the cache, and translates every address of another page as before.
pub apic_init-Wraps :
    (fuel : ℕ) (s : Vmm) (kind : Kinds) (root spurious : ℕ) (pit : ℕ → ℕ × ℕ) (current : ℕ → ℕ)
    (n : ℕ)
    → IsVmm s kind
    → kind root ≡ 4
    → 3 < pages_left s.pmm
    → Wraps pit n
    → 0 < n
    → n < fuel
    → let elapsed = 0xFFFFFFFF - current n in
      (r : ApicSetup) × (apic_init fuel s (root * 4096) spurious pit current ≡ some r)
      × ((count : ℕ) → pit_count idle count r.calls ≡ 19968)
      × (timer_counts r.calls ≡ 0xFFFFFFFF ∷ 0 ∷ [])
      × (r.ticks_per_ms * 10 ≤ elapsed)
      × (elapsed < r.ticks_per_ms * 10 + 10)
      × (vmm_get_phys r.vmm.words (root * 4096) apic_base ≡ apic_base)
      × HasEntry r.vmm.words root apic_base (with_flags apic_base 0x13)
      × ((a : ℕ)
          → page_number a ≢ page_number apic_base
          → vmm_get_phys r.vmm.words (root * 4096) a ≡ vmm_get_phys s.words (root * 4096) a)
unfolding apic_init apic_setup
apic_init-Wraps fuel s kind root spurious pit current n v top room w some_looks enough =
    let found =
      await_wrap_from n fuel pit 0xFFFF 0 n (omega arith) enough (λ j lo. w.falls j)
        (λ j lo. w.wraps j) (λ lt. omega arith) (λ e. absurd (omega (arith, e))) in
    let mapped =
      vmm_map-Mapped s kind root apic_base apic_base 0x13 v top room (omega arith) refl in
    let entry = vmm_map-HasEntry s kind root apic_base apic_base 0x13 v top room in
    let loads = setup_loads s (root * 4096) spurious current n in
    (
      apic_setup s (root * 4096) spurious current n,
      rw (apic_init, found) refl,
      λ count. (loads count).0,
      (loads 0).1,
      omega arith,
      omega arith,
      mapped.here,
      entry,
      mapped.others,
    )
