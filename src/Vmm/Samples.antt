-- ===== src/Vmm/Samples.antt =====
-- A small memory for the tests: page tables that are still empty.
use barium.Prelude.{◌<◌, ◌≡◌, refl, true, ◌==◌, if◌then◌else◌, arith, Bool-cases, inl, inr}
use barium.Pmm.{Pmm, bitmap_test}
use barium.Pmm.Alloc.{IsPmm}
use barium.Pmm.Free.{count_free}
use barium.Pmm.One.{pages_left}
use barium.Vmm.{Vmm}
use barium.Vmm.Tables.{Kinds}
use barium.Vmm.Next.{IsVmm}

-- 32 pages, the first eight taken, and the root table, which is empty, in page 1.
abbrev pub pages : Pmm
pages = record {
  bitmap = λ i. if i == 0 then 255 else 0;
  total_pages = 32;
  usable_pages = 32;
  free_pages = 24;
  last_search_index = 0;
  highest_phys_address = 0x2_0000;
}

abbrev pub kinds : Kinds
kinds q = if q == 1 then 4 else 0

one_taken : bitmap_test pages.bitmap 1 ≡ true
unfolding bitmap_test
one_taken = refl

pub pages-IsPmm : IsPmm pages
pages-IsPmm = record { bytes = λ i. ground arith; small = omega arith; start_in = omega arith }

abbrev pub blank : Vmm
blank = record { words = λ a. 0; pmm = pages }

pub blank-IsVmm : IsVmm blank kinds
blank-IsVmm = record {
  tree = record {
    points = λ t i high hi here. absurd (ground (arith, here));
    allows = λ t i high hi here. absurd (ground (arith, here));
    apart = λ t i t' i' high high' hi hi' here here' e. absurd (ground (arith, here));
  };
  pmm = pages-IsPmm;
  tables_taken = λ t ne. elim (Bool-cases (t == 1)) [
    | inl same ↦ let e : t ≡ 1 = ground arith in rw e one_taken
    | inr other ↦ absurd (ground arith)
  ];
}

pub many_left : 10 < pages_left pages
unfolding count_free bitmap_test
many_left = omega arith
