-- ===== src/Vmm/Tests.antt =====
-- Page tables in a small memory.
use barium.Prelude.{ℕ, ◌+◌, ◌*◌, ◌<◌, ◌≡◌, refl, List, [], ◌∷◌, arith, All}
use barium.Pmm.{bitmap_test, bitmap_set, first_taken, search, set_pages, take_pages, pmm_alloc}
use barium.Pmm.Free.{count_free}
use barium.Pmm.One.{pages_left}
use barium.Pmm.Init.{MemDesc}
use barium.Vmm.{frame, clear_words, next_table, vmm_map, vmm_get_phys}
use barium.Vmm.Samples.{pages-IsPmm, blank, kinds, blank-IsVmm, many_left}
use barium.Vmm.Contract.{Mapped, vmm_map-Mapped}
use barium.Vmm.Init.{
  region_flags, range_calls, region_calls, buffer_calls, map_all, init_calls, vmm_init,
}
use barium.Vmm.Init.Cover.{EachPage}
use barium.Vmm.Init.Identity.{vmm_init-IsIdentity}

vmm_map-Mapped_example :
    Mapped blank kinds 1 0xDEAD_B000 0x9000 (vmm_map blank (1 * 4096) 0xDEAD_B000 0x9000 3)
vmm_map-Mapped_example =
    vmm_map-Mapped blank kinds 1 0xDEAD_B000 0x9000 3 blank-IsVmm refl (omega (arith, many_left))
      (omega arith) refl

-- One region of two pages, the first of which is the page at 0, and a frame buffer of two pages.
abbrev info : List MemDesc
info = record { desc_type = 7; physical_start = 0; number_of_pages = 2 } ∷ []

boot_left : 3 < pages_left (vmm_init blank info 0x8000_0000 5000).1.pmm
unfolding vmm_init map_all init_calls region_calls range_calls buffer_calls region_flags vmm_map
    next_table clear_words pmm_alloc search first_taken take_pages set_pages bitmap_set bitmap_test
    count_free
boot_left = omega arith

vmm_init-IsIdentity_example :
    let (root, s') = vmm_init blank info 0x8000_0000 5000 in
    All (EachPage (λ a. vmm_get_phys s'.words root a ≡ frame a)) info
    × ((k : ℕ)
        → k * 4096 < 5000
        → vmm_get_phys s'.words root (0x8000_0000 + k * 4096) ≡ frame (0x8000_0000 + k * 4096))
vmm_init-IsIdentity_example =
    vmm_init-IsIdentity blank info 0x8000_0000 5000 (pages-IsPmm, omega arith) (omega arith, tt)
      (omega arith) boot_left
