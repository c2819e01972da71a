-- ===== src/Vmm.antt =====
-- src/kernel/vmm.c: page tables of four levels. Tables are reached at their physical addresses,
-- which vmm_init maps to themselves.
pub mod Tables
pub mod Link
pub mod Next
pub mod Lookup
pub mod Contract
pub mod Entry
pub mod Init
pub mod Samples
mod Tests
use Prim.Native.Nat.{bit_or}
use barium.Prelude.{ℕ, zero, suc, ◌+◌, ◌*◌, ◌/◌, ◌%◌, ◌^◌, Bool, ◌==◌, if◌then◌else◌, not}
use barium.Pmm.{Pmm, pmm_alloc}

-- The words of memory, by address.
abbrev pub Words : Type 0
Words = ℕ → ℕ

abbrev pub write_word : Words → ℕ → ℕ → Words
write_word m a v b = if b == a then v else m b

-- Memory, and the pages that are taken. The bitmap of the pages lies in pages that are taken.
pub record Vmm : Type 0 where
  pub words : Words
  pub pmm : Pmm

-- `b_memset(page, 0, 4096)`, as `n` words from the address `a` on.
pub clear_words : ℕ → Words → ℕ → Words
clear_words zero m a = m
clear_words (suc n) m a = clear_words n (write_word m a 0) (a + 8)

-- `(virt >> (12 + 9 * (level - 1))) & 0x1FF`
abbrev pub pt_idx : ℕ → ℕ
pt_idx virt = virt / 2 ^ 12 % 512

abbrev pub pd_idx : ℕ → ℕ
pd_idx virt = virt / 2 ^ 21 % 512

abbrev pub pdpt_idx : ℕ → ℕ
pdpt_idx virt = virt / 2 ^ 30 % 512

abbrev pub pml4_idx : ℕ → ℕ
pml4_idx virt = virt / 2 ^ 39 % 512

-- `entry & PAGE_PRESENT`
abbrev pub is_present : ℕ → Bool
is_present entry = not (entry % 2 == 0)

-- `entry & ~0xFFF`
abbrev pub frame : ℕ → ℕ
frame entry = entry / 4096 * 4096

-- `address | flags`, for flags in the low twelve bits.
abbrev pub with_flags : ℕ → ℕ → ℕ
with_flags address flags = frame address + bit_or (address % 4096) flags

-- The table behind an entry, which is made if it is not there.
pub next_table : Vmm → (entry : ℕ) → ℕ × Vmm
next_table s entry =
    let (page, pmm) = pmm_alloc s.pmm 1 in
    let cleared = clear_words 512 s.words page in
    let made = write_word cleared entry (with_flags page 7) in
    if is_present (s.words entry)
    then (frame (s.words entry), s)
    else (frame (made entry), record { words = made; pmm = pmm })

pub vmm_map : Vmm → (pml4 virt phys flags : ℕ) → Vmm
vmm_map s pml4 virt phys flags =
    let (pdpt, s₁) = next_table s (pml4 + 8 * pml4_idx virt) in
    let (pd, s₂) = next_table s₁ (pdpt + 8 * pdpt_idx virt) in
    let (pt, s₃) = next_table s₂ (pd + 8 * pd_idx virt) in
    record s₃ { words = write_word s₃.words (pt + 8 * pt_idx virt) (with_flags (frame phys) flags) }

pub vmm_get_phys : Words → (pml4 virt : ℕ) → ℕ
vmm_get_phys m pml4 virt =
    let pml4_entry = m (pml4 + 8 * pml4_idx virt) in
    let pdpt_entry = m (frame pml4_entry + 8 * pdpt_idx virt) in
    let pd_entry = m (frame pdpt_entry + 8 * pd_idx virt) in
    let pt_entry = m (frame pd_entry + 8 * pt_idx virt) in
    if is_present pml4_entry
    then (if is_present pdpt_entry
        then (if is_present pd_entry
            then (if is_present pt_entry then frame pt_entry else 0)
            else 0)
        else 0)
    else 0
