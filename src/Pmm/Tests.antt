-- ===== src/Pmm/Tests.antt =====
-- The page allocator at work on sixteen pages, four of them taken.
use barium.Prelude.{
  ℕ, zero, suc, ◌+◌, ◌*◌, ◌/◌, ◌≤◌, ◌<◌, ◌≡◌, ◌≢◌, refl, true, false, arith, ◌==◌, ◌⊎◌,
  if◌then◌else◌, List, [], ◌∷◌,
}
use barium.Pmm.{
  Pmm, Bitmap, bitmap_test, first_taken, search, set_pages, take_pages, pmm_alloc, pmm_free,
}
use barium.Pmm.Bits.{IsBytes, pass_below, passes_at}
use barium.Pmm.Alloc.{Free, IsPmm, Answer, pmm_alloc-Answer}
use barium.Pmm.Init.{MemDesc, memory_end, find_bitmap, pmm_init}
use barium.Pmm.Init.Pages.{initially, pmm_init_test}
use barium.Pmm.Free.{pmm_free-pmm_alloc, count_free, pmm_alloc-count_free}

-- Pages 0 to 3 are taken, 4 to 15 free, and there are no others.
abbrev bytes : Bitmap
bytes i = if i == 0 then 15 else if i == 1 then 0 else 255

abbrev pages : Pmm
pages = record {
  bitmap = bytes;
  total_pages = 16;
  usable_pages = 16;
  free_pages = 12;
  last_search_index = 6;
  highest_phys_address = 16 * 4096;
}

bytes-IsBytes : IsBytes bytes
bytes-IsBytes i = ground arith

pages-IsPmm : IsPmm pages
pages-IsPmm = record { bytes = bytes-IsBytes; small = omega arith; start_in = omega arith }

-- The search starts behind the last one, and comes round.
alloc_behind : (pmm_alloc pages 3).0 ≡ 6 * 4096
unfolding bitmap_test first_taken search set_pages take_pages pmm_alloc
alloc_behind = refl

alloc_around : (pmm_alloc pages 12).0 ≡ 4 * 4096
unfolding bitmap_test first_taken search set_pages take_pages pmm_alloc
alloc_around = refl

alloc_none : (pmm_alloc pages 13).0 ≡ 0
unfolding bitmap_test first_taken search set_pages take_pages pmm_alloc
alloc_none = refl

pmm_alloc-Answer_example : Answer pages 3 (pmm_alloc pages 3)
pmm_alloc-Answer_example = pmm_alloc-Answer pages 3 pages-IsPmm (omega arith)

six_found : (pmm_alloc pages 3).0 ≢ 0
unfolding bitmap_test first_taken search set_pages take_pages pmm_alloc
six_found = omega arith

pmm_free-pmm_alloc_example :
    let (p, s') = pmm_alloc pages 3 in
    let s'' = pmm_free s' p 3 in
    ((q : ℕ) → bitmap_test s''.bitmap q ≡ bitmap_test pages.bitmap q) × (s''.free_pages ≡ 12)
pmm_free-pmm_alloc_example =
    pmm_free-pmm_alloc pages 3 pages-IsPmm (omega arith) (omega arith) six_found

pages_counted : 12 ≡ count_free 16 bytes
unfolding count_free bitmap_test
pages_counted = refl

six_inside : (pmm_alloc pages 3).0 / 4096 + 3 ≤ 16
unfolding bitmap_test first_taken search set_pages take_pages pmm_alloc
six_inside = omega arith

pmm_alloc-count_free_example :
    let s' = (pmm_alloc pages 3).1 in s'.free_pages ≡ count_free s'.total_pages s'.bitmap
pmm_alloc-count_free_example =
    pmm_alloc-count_free pages 3 pages-IsPmm (omega arith) pages_counted six_inside

-- Memory ends behind page 15, and the last search behind page 14; the bits of the pages 16 and 17,
-- which do not exist, are clear.
abbrev end_bytes : Bitmap
end_bytes i = if i == 1 then 63 else if i == 2 then 252 else 255

abbrev end_pages : Pmm
end_pages = record {
  bitmap = end_bytes;
  total_pages = 16;
  usable_pages = 16;
  free_pages = 2;
  last_search_index = 15;
  highest_phys_address = 16 * 4096;
}

end_pages-IsPmm : IsPmm end_pages
end_pages-IsPmm = record { bytes = λ i. ground arith; small = omega arith; start_in = omega arith }

end-Free : Free end_bytes 4 14
unfolding bitmap_test
end-Free zero lt = refl
end-Free (suc zero) lt = refl
end-Free (suc (suc zero)) lt = refl
end-Free (suc (suc (suc zero))) lt = refl
end-Free (suc (suc (suc (suc j)))) lt = absurd (omega arith)

low_taken : pass_below (bitmap_test end_bytes) 14 ≡ true
unfolding pass_below bitmap_test
low_taken = refl

end_only : (k : ℕ) → (k + 4 < 16) ⊎ (k < 15) → k ≢ 14 → ¬ Free end_bytes 4 k
end_only k place other free =
    let taken = passes_at (bitmap_test end_bytes) low_taken k (ground arith) in
    let clear : bitmap_test end_bytes (k + 0) ≡ false = free 0 (omega arith) in
    let e : k + 0 ≡ k = omega arith in
    let clear' : bitmap_test end_bytes k ≡ false = rw e at clear in cc

-- A firmware table: low memory, a reserved region, and 32 MB from 16 MB on.
abbrev table : List MemDesc
table =
    record { desc_type = 7; physical_start = 0; number_of_pages = 160 }
    ∷ record { desc_type = 0; physical_start = 0xA0000; number_of_pages = 96 }
    ∷ record { desc_type = 7; physical_start = 0x100_0000; number_of_pages = 8192 }
    ∷ []

table_found : (pmm_init bytes pages table).0 ≢ 0
unfolding pmm_init memory_end find_bitmap
table_found = omega arith

pmm_init_test_example :
    let (base, s') = pmm_init bytes pages table in
    bitmap_test s'.bitmap 4097 ≡ initially bytes table base (s'.total_pages / 8) 4097
pmm_init_test_example = pmm_init_test bytes pages table 4097 bytes-IsBytes table_found
