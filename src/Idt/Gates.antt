-- ===== src/Idt/Gates.antt =====
-- What a processor finds in the table for a vector.
use mathlib.Core.Path.{subst}
use barium.Prelude.{
  ℕ, zero, suc, ◌+◌, ◌*◌, ◌^◌, ◌≤◌, ◌<◌, ◌≡◌, refl, ◌∙◌, sym, List, true, false, ◌==◌, ltb, leb,
  ◌&&◌, if◌then◌else◌, get_or, set, length, length-set, get_or-set, replicate, length-replicate,
  arith, Bool-cases, inl, inr,
}
use barium.Idt.{Gate, zero_gate, gate, idt_set_gate, set_gates, idt_init}

-- The address that the processor jumps to.
abbrev pub isr_of : Gate → ℕ
isr_of g = g.isr_low + g.isr_mid * 2 ^ 16 + g.isr_high * 2 ^ 32

-- A gate to a routine of the kernel, with interrupts off inside it.
record IsGateTo (isr : ℕ) (g : Gate) : Type 0 where
  pub target : isr_of g ≡ isr
  pub segment : g.kernel_cs ≡ 0x08
  pub rights : g.attributes ≡ 0x8E
  pub no_ist : g.ist ≡ 0

gate-IsGateTo : (isr : ℕ) → isr < 2 ^ 64 → IsGateTo isr (gate isr 0x8E)
gate-IsGateTo isr small = record {
  target = omega arith;
  segment = refl;
  rights = refl;
  no_ist = refl;
}

set_gates-get :
    (n : ℕ) (stubs : ℕ → ℕ) (idt : List Gate) (i v : ℕ)
    → i + n ≤ length idt
    → get_or (set_gates n stubs idt i) v zero_gate
      ≡ (if leb i v && ltb v (i + n) then gate (stubs v) 0x8E else get_or idt v zero_gate)
unfolding set_gates idt_set_gate
set_gates-get zero stubs idt i v room = ground arith
set_gates-get (suc n) stubs idt i v room =
    let g = gate (stubs i) 0x8E in
    let later = set_gates-get n stubs (set idt i g) (i + 1) v (omega (arith, length-set idt i g)) in
    elim (Bool-cases (i == v)) [
      | inl same ↦
          let e : i ≡ v = ground arith in later ∙ ground (arith, get_or-set idt i v g zero_gate, e)
      | inr other ↦ later ∙ ground (arith, get_or-set idt i v g zero_gate)
    ]

get_or-replicate : (n v : ℕ) → get_or (replicate n zero_gate) v zero_gate ≡ zero_gate
get_or-replicate zero v = refl
get_or-replicate (suc n) zero = refl
get_or-replicate (suc n) (suc v) = get_or-replicate n v

inside : (v : ℕ) → v < 48 → (leb 0 v && ltb v (0 + 48)) ≡ true
inside v h = ground arith

outside : (v : ℕ) → 48 ≤ v → (leb 0 v && ltb v (0 + 48)) ≡ false
outside v h = ground arith

-- Behind `idt_init` the gate of each of the first 48 vectors leads to its stub, whole 64-bit address
-- and all, in the kernel's code segment and present; the gates of the other vectors are empty.
idt_init-IsGateTo :
    (stubs : ℕ → ℕ) (v : ℕ)
    → stubs v < 2 ^ 64
    → (v < 48 → IsGateTo (stubs v) (get_or (idt_init stubs).idt v zero_gate))
      × (48 ≤ v → get_or (idt_init stubs).idt v zero_gate ≡ zero_gate)
unfolding idt_init
idt_init-IsGateTo stubs v small =
    let found =
      set_gates-get 48 stubs (replicate 256 zero_gate) 0 v
        (omega (arith, length-replicate 256 zero_gate)) in
    (
      λ low.
          subst (IsGateTo (stubs v)) (sym (found ∙ rw (inside v low) refl))
            (gate-IsGateTo (stubs v) small),
      λ high. found ∙ rw (outside v high) (get_or-replicate 256 v),
    )
