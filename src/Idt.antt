-- ===== src/Idt.antt =====
-- src/kernel/idt.c: the gates of the interrupt table, and what an interrupt does. The stubs that push
-- the registers are assembly: their addresses are an argument.
mod Gates
pub mod Handler
pub mod Events
mod Tests
use barium.Prelude.{ℕ, zero, suc, ◌+◌, ◌-◌, ◌*◌, ◌/◌, ◌%◌, ◌^◌, List, [], ◌∷◌, set, replicate}

-- `idt_entry_t`
pub record Gate : Type 0 where
  pub isr_low : ℕ
  pub kernel_cs : ℕ
  pub ist : ℕ
  pub attributes : ℕ
  pub isr_mid : ℕ
  pub isr_high : ℕ
  pub reserved : ℕ

abbrev pub zero_gate : Gate
zero_gate = record {
  isr_low = 0;
  kernel_cs = 0;
  ist = 0;
  attributes = 0;
  isr_mid = 0;
  isr_high = 0;
  reserved = 0;
}

abbrev pub gate : (isr attributes : ℕ) → Gate
gate isr attributes = record {
  isr_low = isr % 2 ^ 16;
  kernel_cs = 0x08;
  ist = 0;
  attributes = attributes;
  isr_mid = isr / 2 ^ 16 % 2 ^ 16;
  isr_high = isr / 2 ^ 32 % 2 ^ 32;
  reserved = 0;
}

pub idt_set_gate : List Gate → (vector isr attributes : ℕ) → List Gate
idt_set_gate idt vector isr attributes = set idt vector (gate isr attributes)

-- The loop of `idt_init`, from the vector `i` on.
pub set_gates : ℕ → (ℕ → ℕ) → List Gate → ℕ → List Gate
set_gates zero isr_stub_table idt i = idt
set_gates (suc n) isr_stub_table idt i =
    set_gates n isr_stub_table (idt_set_gate idt i (isr_stub_table i) 0x8E) (i + 1)

-- A byte that the code writes to a port.
pub record PortWrite : Type 0 where
  pub port : ℕ
  pub value : ℕ

abbrev pub b_outb : ℕ → ℕ → PortWrite
b_outb p v = record { port = p; value = v }

pub pic_remap : List PortWrite
pic_remap =
    b_outb 0x20 0x11
    ∷ b_outb 0xA0 0x11
    ∷ b_outb 0x21 0x20
    ∷ b_outb 0xA1 0x28
    ∷ b_outb 0x21 0x04
    ∷ b_outb 0xA1 0x02
    ∷ b_outb 0x21 0x01
    ∷ b_outb 0xA1 0x01
    ∷ b_outb 0x21 0xFD
    ∷ b_outb 0xA1 0xFF
    ∷ []

-- The table, the limit of `idtr`, and the writes to the interrupt controllers.
pub record IdtSetup : Type 0 where
  pub idt : List Gate
  pub limit : ℕ
  pub writes : List PortWrite

pub idt_init : (ℕ → ℕ) → IdtSetup
idt_init isr_stub_table = record {
  idt = set_gates 48 isr_stub_table (replicate 256 zero_gate) 0;
  limit = 256 * 16 - 1;
  writes = pic_remap;
}
