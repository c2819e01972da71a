-- ===== src/Shell/PmmTest/Tests.antt =====
-- `pmmtest` over 288 pages, of which the first eight are taken.
use barium.Prelude.{ℕ, ◌<◌, ◌≡◌, refl, true, some, ◌∷◌, arith, ◌==◌, if◌then◌else◌}
use barium.Pmm.{Pmm, bitmap_test}
use barium.Pmm.Alloc.{IsPmm}
use barium.Pmm.Free.{count_free}
use barium.Pmm.One.{pages_left}
use barium.Vmm.{Words}
use barium.Shell.PmmTest.{ok, stress, first_lines, end_lines, pmmtest}
use barium.Shell.PmmTest.Pages.{pmmtest_restores}

abbrev memory : Pmm
memory = record {
  bitmap = λ i. if i == 0 then 255 else 0;
  total_pages = 288;
  usable_pages = 288;
  free_pages = 280;
  last_search_index = 0;
  highest_phys_address = 0x12_0000;
}

memory-IsPmm : IsPmm memory
memory-IsPmm = record { bytes = λ i. ground arith; small = omega arith; start_in = omega arith }

first_taken : bitmap_test memory.bitmap 0 ≡ true
unfolding bitmap_test
first_taken = refl

enough_left : 256 < pages_left memory
unfolding count_free bitmap_test
enough_left = omega arith

pmmtest_restores_example :
    (s' : Pmm) × (w' : Words) × (pmmtest memory (λ a. 0)
      ≡ some (first_lines memory ok (stress ∷ end_lines true), s', w'))
    × IsPmm s'
    × ((q : ℕ) → bitmap_test s'.bitmap q ≡ bitmap_test memory.bitmap q)
pmmtest_restores_example = pmmtest_restores memory (λ a. 0) memory-IsPmm first_taken enough_left
