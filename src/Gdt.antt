-- ===== src/Gdt.antt =====
-- src/kernel/gdt.c: the table of segment descriptors and the task state segment of a CPU.
mod Table
mod Tests
use barium.Prelude.{ℕ, ◌+◌, ◌-◌, ◌*◌, ◌/◌, ◌%◌, ◌^◌, List, set, replicate}

-- `gdt_entry_t`
pub record GdtEntry : Type 0 where
  pub limit_low : ℕ
  pub base_low : ℕ
  pub base_middle : ℕ
  pub access : ℕ
  pub granularity : ℕ
  pub base_high : ℕ

abbrev pub zero_entry : GdtEntry
zero_entry = record {
  limit_low = 0;
  base_low = 0;
  base_middle = 0;
  access = 0;
  granularity = 0;
  base_high = 0;
}

-- `tss_t`, without its reserved fields; `ist` has the seven interrupt stacks.
pub record Tss : Type 0 where
  pub rsp0 : ℕ
  pub rsp1 : ℕ
  pub rsp2 : ℕ
  pub ist : List ℕ
  pub iopb_offset : ℕ

abbrev pub zero_tss : Tss
zero_tss = record { rsp0 = 0; rsp1 = 0; rsp2 = 0; ist = replicate 7 0; iopb_offset = 0 }

-- The fields `gdt`, `gdtr` and `tss` of a CPU.
pub record Segments : Type 0 where
  pub gdt : List GdtEntry
  pub gdtr_limit : ℕ
  pub gdtr_base : ℕ
  pub tss : Tss

-- The two halves of `granularity` share no bit.
pub descriptor : (base limit access gran : ℕ) → GdtEntry
descriptor base limit access gran = record {
  limit_low = limit % 2 ^ 16;
  base_low = base % 2 ^ 16;
  base_middle = base / 2 ^ 16 % 256;
  access = access;
  granularity = limit / 2 ^ 16 % 16 + gran / 16 % 16 * 16;
  base_high = base / 2 ^ 24 % 256;
}

pub gdt_set_entry_at : List GdtEntry → (index base limit access gran : ℕ) → List GdtEntry
gdt_set_entry_at gdt index base limit access gran =
    set gdt index (descriptor base limit access gran)

-- `base_highest` and `reserved` lie over the next descriptor: the first over its two low words, the
-- second over the other bytes.
pub gdt_set_tss_at : List GdtEntry → (index base limit : ℕ) → List GdtEntry
gdt_set_tss_at gdt index base limit =
    let highest = base / 2 ^ 32 % 2 ^ 32 in
    set (gdt_set_entry_at gdt index (base % 2 ^ 32) limit 0x89 0x40) (index + 1)
      (record zero_entry { limit_low = highest % 2 ^ 16; base_low = highest / 2 ^ 16 })

-- The CPU's table is at the address `gdt_address` and its task state segment, of 104 bytes, at
-- `tss_address`.
pub gdt_init : (gdt_address tss_address : ℕ) → Segments
gdt_init gdt_address tss_address =
    let cleared = replicate 16 zero_entry in
    let null = gdt_set_entry_at cleared 0 0 0 0 0 in
    let kernel_code = gdt_set_entry_at null 1 0 0xFFFFFFFF 0x9A 0xA0 in
    let kernel_data = gdt_set_entry_at kernel_code 2 0 0xFFFFFFFF 0x92 0xA0 in
    let user_data = gdt_set_entry_at kernel_data 3 0 0xFFFFFFFF 0xF2 0xA0 in
    let user_code = gdt_set_entry_at user_data 4 0 0xFFFFFFFF 0xFA 0xA0 in
    record {
      gdt = gdt_set_tss_at user_code 5 tss_address (104 - 1);
      gdtr_limit = 7 * 8 - 1;
      gdtr_base = gdt_address;
      tss = zero_tss;
    }

pub tss_set_stack : Segments → ℕ → Segments
tss_set_stack s stack = record s { tss = record s.tss { rsp0 = stack } }
