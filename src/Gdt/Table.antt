-- ===== src/Gdt/Table.antt =====
-- What a processor reads from the descriptors.
use barium.Prelude.{ℕ, ◌+◌, ◌*◌, ◌/◌, ◌%◌, ◌^◌, ◌<◌, ◌≡◌, refl, get_or, arith}
use barium.Gdt.{
  GdtEntry, zero_entry, Segments, descriptor, gdt_set_entry_at, gdt_set_tss_at, gdt_init,
}

abbrev pub base_of : GdtEntry → ℕ
base_of e = e.base_low + e.base_middle * 2 ^ 16 + e.base_high * 2 ^ 24

abbrev pub limit_of : GdtEntry → ℕ
limit_of e = e.limit_low + e.granularity % 16 * 2 ^ 16

abbrev pub flags_of : GdtEntry → ℕ
flags_of e = e.granularity / 16

-- A descriptor of 16 bytes has the high half of its base in the first four bytes of the second entry.
abbrev pub tss_base_of : GdtEntry → GdtEntry → ℕ
tss_base_of low high = base_of low + (high.limit_low + high.base_low * 2 ^ 16) * 2 ^ 32

-- A descriptor as a processor reads it: its base, limit, access byte and flags.
pub record Reads (e : GdtEntry) (base limit access flags : ℕ) : Type 0 where
  pub base_is : base_of e ≡ base
  pub limit_is : limit_of e ≡ limit
  pub access_is : e.access ≡ access
  pub flags_are : flags_of e ≡ flags

descriptor-Reads :
    (base limit access gran : ℕ)
    → base < 2 ^ 32
    → gran < 256
    → Reads (descriptor base limit access gran) base (limit % 2 ^ 20) access (gran / 16)
unfolding descriptor
descriptor-Reads base limit access gran small byte = record {
  base_is = omega arith;
  limit_is = omega arith;
  access_is = refl;
  flags_are = omega arith;
}

abbrev pub entry : Segments → ℕ → GdtEntry
entry s i = get_or s.gdt i zero_entry

-- The table of `gdt_init`: kernel code and data, user data and code, each over all of memory, and the
-- task state segment.
pub record IsTable (s : Segments) (tss_address : ℕ) : Type 0 where
  pub null : entry s 0 ≡ zero_entry
  pub kernel_code : Reads (entry s 1) 0 0xFFFFF 0x9A 0xA
  pub kernel_data : Reads (entry s 2) 0 0xFFFFF 0x92 0xA
  pub user_data : Reads (entry s 3) 0 0xFFFFF 0xF2 0xA
  pub user_code : Reads (entry s 4) 0 0xFFFFF 0xFA 0xA
  pub task : Reads (entry s 5) (tss_address % 2 ^ 32) 103 0x89 4
  pub task_base : tss_base_of (entry s 5) (entry s 6) ≡ tss_address
  pub covered : s.gdtr_limit + 1 ≡ 8 * 7

-- Wherever the task state segment of the CPU lies, `gdt_init` leaves a table in which a processor
-- reads an empty first descriptor, kernel code and data, user data and code over all of memory with
-- their access rights, and the task state segment at its 64-bit address; and the limit of the table
-- covers these descriptors.
pub gdt_init-IsTable :
    (gdt_address tss_address : ℕ)
    → tss_address < 2 ^ 64
    → IsTable (gdt_init gdt_address tss_address) tss_address
unfolding gdt_init gdt_set_entry_at gdt_set_tss_at
gdt_init-IsTable gdt_address tss_address small =
    let low = descriptor-Reads (tss_address % 2 ^ 32) 103 0x89 0x40 (omega arith) (omega arith) in
    record {
      null = unfold descriptor in refl;
      kernel_code = descriptor-Reads 0 0xFFFFFFFF 0x9A 0xA0 (omega arith) (omega arith);
      kernel_data = descriptor-Reads 0 0xFFFFFFFF 0x92 0xA0 (omega arith) (omega arith);
      user_data = descriptor-Reads 0 0xFFFFFFFF 0xF2 0xA0 (omega arith) (omega arith);
      user_code = descriptor-Reads 0 0xFFFFFFFF 0xFA 0xA0 (omega arith) (omega arith);
      task = low;
      task_base = omega (arith, low.base_is);
      covered = refl;
    }
