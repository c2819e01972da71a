-- ===== src/Alpc/Sections.antt =====
-- The shared memory sections of src/kernel/alpc.c.
pub mod Shared
pub mod Table
pub mod Limit
use barium.Prelude.{
  ℕ, zero, suc, ◌+◌, ◌*◌, ◌/◌, ◌%◌, ◌^◌, Option, none, some, List, [], ◌∷◌, ◌==◌, ltb,
  if◌then◌else◌, replicate,
}
use barium.Pmm.{Pmm, u64, pmm_alloc}

pub record Section : Type 0 where
  pub id : ℕ
  pub phys_addr : ℕ
  pub size : ℕ
  pub owner_tid : ℕ

-- `sections`, `next_section_id` and `next_section_virt`.
pub record Sections : Type 0 where
  pub sections : List Section
  pub next_section_id : ℕ
  pub next_section_virt : ℕ

abbrev pub free_section : Section
free_section = record { id = 0; phys_addr = 0; size = 0; owner_tid = 0 }

-- `alpc_init`, over the initial values of the two counters.
unfoldable pub alpc_init : Sections
alpc_init = record {
  sections = replicate 64 free_section;
  next_section_id = 1;
  next_section_virt = 0x80_0000_0000;
}

-- The loop over the table: the first slot whose id is 0 is filled.
unfoldable pub fill_slot : List Section → Section → Option (List Section)
fill_slot [] x = none
fill_slot (s ∷ ss) x =
    let later = fill_slot ss x in
    if s.id == 0 then some (x ∷ ss) else elim later [ none ↦ none | some ss' ↦ some (s ∷ ss') ]

unfoldable pub alpc_create_section : ℕ → Pmm → Sections → ℕ → ℕ × Pmm × Sections
alpc_create_section tid pmm s size =
    let pages = u64 (size + 4095) / 4096 in
    let (phys, pmm') = pmm_alloc pmm pages in
    let id = s.next_section_id in
    let s' = record s { next_section_id = u64 (id + 1) } in
    let x : Section = record { id = id; phys_addr = phys; size = pages * 4096; owner_tid = tid } in
    elim (fill_slot s.sections x) [
      | none ↦ (0, pmm', s')
      | some table ↦ (id, pmm', record s' { sections = table })
    ]

unfoldable pub find_section : List Section → ℕ → Option Section
find_section [] id = none
find_section (s ∷ ss) id = let later = find_section ss id in if s.id == id then some s else later

-- The calls of `vmm_map`, as pairs of a virtual and a physical address, from the offset `j` on.
-- Each call passes the flags present, writable and user.
unfoldable pub map_pages : (fuel : ℕ) → (size virt phys j : ℕ) → List (ℕ × ℕ)
map_pages zero size virt phys j = []
map_pages (suc fuel) size virt phys j =
    let later = map_pages fuel size virt phys (j + 4096) in
    if ltb j size then (u64 (virt + j), u64 (phys + j)) ∷ later else []

unfoldable pub alpc_map_section : Sections → ℕ → ℕ × List (ℕ × ℕ) × Sections
alpc_map_section s section_id = elim (find_section s.sections section_id) [
  | none ↦ (0, [], s)
  | some x ↦
      let virt = s.next_section_virt in
      (
        virt,
        map_pages (x.size / 4096 + 1) x.size virt x.phys_addr 0,
        record s { next_section_virt = u64 (virt + x.size) },
      )
]
