-- ===== src/Vmm/Init.antt =====
-- `vmm_init`: the first page tables, which map memory and the frame buffer to themselves.
pub mod Cover
pub mod Identity
use Prim.Native.Nat.{bit_or}
use barium.Prelude.{
  ℕ, zero, suc, ◌+◌, ◌*◌, ◌/◌, ◌%◌, ◌^◌, ◌==◌, ◌||◌, if◌then◌else◌, List, [], ◌∷◌, ◌++◌,
}
use barium.Pmm.{Pmm, pmm_alloc, u64}
use barium.Pmm.Init.{MemDesc}
use barium.Vmm.{Words, Vmm, clear_words, vmm_map}

abbrev pub page_present : ℕ
page_present = 1

abbrev pub page_writable : ℕ
page_writable = 2

abbrev pub page_user : ℕ
page_user = 4

abbrev pub page_pwt : ℕ
page_pwt = 8

abbrev pub page_pcd : ℕ
page_pcd = 16

-- The flags of a region, by its type.
unfoldable pub region_flags : MemDesc → ℕ
region_flags d =
    if d.desc_type == 7
      || (d.desc_type == 1 || (d.desc_type == 2 || (d.desc_type == 3 || d.desc_type == 4)))
    then page_present + (page_writable + page_user)
    else page_present + (page_writable + (page_pcd + (page_pwt + page_user)))

-- The calls of `vmm_map` for `n` pages from the address `a` on: the address and the flags of each.
-- The address 0 is left out.
unfoldable pub range_calls : ℕ → (a flags : ℕ) → List (ℕ × ℕ)
range_calls zero a flags = []
range_calls (suc n) a flags =
    let later = range_calls n (u64 (a + 4096)) flags in if a == 0 then later else (a, flags) ∷ later

unfoldable pub region_calls : List MemDesc → List (ℕ × ℕ)
region_calls [] = []
region_calls (d ∷ ds) =
    range_calls (u64 (d.number_of_pages * 4096) / 4096) d.physical_start (region_flags d)
    ++ region_calls ds

-- The frame buffer's loop does not leave out the address 0.
unfoldable pub buffer_calls : ℕ → (a : ℕ) → List (ℕ × ℕ)
buffer_calls zero a = []
buffer_calls (suc n) a =
    (a, page_present + (page_writable + (page_pcd + (page_pwt + page_user))))
    ∷ buffer_calls n (u64 (a + 4096))

unfoldable pub map_all : (root : ℕ) → List (ℕ × ℕ) → Vmm → Vmm
map_all root [] s = s
map_all root ((a, flags) ∷ cs) s = map_all root cs (vmm_map s root a a flags)

unfoldable pub init_calls : List MemDesc → (fb_base fb_size : ℕ) → List (ℕ × ℕ)
init_calls info fb_base fb_size =
    region_calls info ++ buffer_calls (u64 (fb_size + 4095) / 4096) fb_base

-- `kernel_pml4`, and the state.
unfoldable pub vmm_init : Vmm → List MemDesc → (fb_base fb_size : ℕ) → ℕ × Vmm
vmm_init s info fb_base fb_size =
    let (root, pmm) = pmm_alloc s.pmm 1 in
    let first : Vmm = record { words = clear_words 512 s.words root; pmm = pmm } in
    (root, map_all root (init_calls info fb_base fb_size) first)
