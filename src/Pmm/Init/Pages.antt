-- ===== src/Pmm/Init/Pages.antt =====
-- `pmm_init`: the state of every page behind it.
use barium.Prelude.{
  ℕ, zero, suc, ◌+◌, ◌-◌, ◌/◌, ◌%◌, ◌^◌, ◌<◌, ◌≡◌, ◌≢◌, refl, ◌∙◌, Bool, true, false, not, ◌&&◌,
  ◌||◌, arith, ◌==◌, ltb, leb, if◌then◌else◌, Bool-cases, inl, inr, List, [], ◌∷◌,
}
use barium.Pmm.{Pmm, Bitmap, u64, write_byte, bitmap_test, set_pages}
use Prim.Native.Nat.{bit_and}
use barium.Pmm.Bits.{
  pass_below, passes_at, IsBytes, within, test-set, bitmap_set-IsBytes, test-set_pages,
  test-clear_pages, set_pages-IsBytes, clear_pages-IsBytes,
}
use barium.Pmm.Init.{
  MemDesc, b_memset, memory_end, find_bitmap, clear_region, clear_usable, reserve, reserve_low,
  fill, pmm_init,
}

-- A page of a usable region.
pub usable : List MemDesc → ℕ → Bool
usable [] q = false
usable (d ∷ ds) q =
    (d.desc_type == 7 && within (d.physical_start / 4096) d.number_of_pages q) || usable ds q

b_memset-get :
    (n : ℕ) (b : Bitmap) (i v j : ℕ)
    → b_memset n b i v j ≡ (if leb i j && ltb j (i + n) then v else b j)
unfolding b_memset
b_memset-get zero b i v j = ground arith
b_memset-get (suc n) b i v j = ground (arith, b_memset-get n (write_byte b i v) (i + 1) v j)

-- What becomes of the state of a page, when the bitmap stays one of bytes.
abbrev Becomes : Pmm → ℕ → Bool → Type 0
Becomes s q t = IsBytes s.bitmap × (bitmap_test s.bitmap q ≡ t)

clear_region-Becomes :
    (d : MemDesc) (s : Pmm) (q : ℕ)
    → IsBytes s.bitmap
    → Becomes (clear_region d s) q (
        if d.desc_type == 7 && within (d.physical_start / 4096) d.number_of_pages q
        then false
        else bitmap_test s.bitmap q)
unfolding clear_region
clear_region-Becomes d s q h = elim (Bool-cases (d.desc_type == 7)) [
  | inl is ↦ rw is (
    clear_pages-IsBytes d.number_of_pages s.bitmap (d.physical_start / 4096) h,
    test-clear_pages d.number_of_pages s.bitmap (d.physical_start / 4096) q h,
  )
  | inr other ↦ rw other (h, refl)
]

clear_usable-Becomes :
    (ds : List MemDesc) (s : Pmm) (q : ℕ)
    → IsBytes s.bitmap
    → Becomes (clear_usable ds s) q (if usable ds q then false else bitmap_test s.bitmap q)
unfolding clear_usable usable
clear_usable-Becomes [] s q h = (h, refl)
clear_usable-Becomes (d ∷ ds) s q h =
    let first = clear_region-Becomes d s q h in
    let later = clear_usable-Becomes ds (clear_region d s) q first.0 in
    (later.0, ground (arith, later.1, first.1))

reserve-Becomes :
    (i : ℕ) (s : Pmm) (q : ℕ)
    → IsBytes s.bitmap
    → Becomes (reserve i s) q (if q == i then true else bitmap_test s.bitmap q)
unfolding reserve
reserve-Becomes i s q h = elim (Bool-cases (bitmap_test s.bitmap i)) [
  | inl taken ↦ rw taken (
    h,
    elim (Bool-cases (q == i)) [
      | inl same ↦ let e : q ≡ i = ground arith in rw (same, e) taken
      | inr other ↦ rw other refl
    ],
  )
  | inr free ↦ rw free (bitmap_set-IsBytes s.bitmap h i, test-set s.bitmap h i q)
]

reserve_low-Becomes :
    (n i : ℕ) (s : Pmm) (q : ℕ)
    → IsBytes s.bitmap
    → Becomes (reserve_low n i s) q (if within i n q then true else bitmap_test s.bitmap q)
unfolding reserve_low
reserve_low-Becomes zero i s q h = (h, ground arith)
reserve_low-Becomes (suc n) i s q h =
    let first = reserve-Becomes i s q h in
    let later = reserve_low-Becomes n (i + 1) (reserve i s) q first.0 in
    (later.0, ground (arith, later.1, first.1))

b_memset-IsBytes : (n : ℕ) (b : Bitmap) (i v : ℕ) → v < 256 → IsBytes b → IsBytes (b_memset n b i v)
b_memset-IsBytes n b i v small h j = ground (arith, b_memset-get n b i v j, h j)

full_bits : pass_below (λ k. not (bit_and 255 (2 ^ k) == 0)) 8 ≡ true
unfolding pass_below
full_bits = refl

b_memset-test :
    (n : ℕ) (b : Bitmap) (q : ℕ)
    → bitmap_test (b_memset n b 0 255) q ≡ (if ltb (q / 8) n then true else bitmap_test b q)
unfolding bitmap_test
b_memset-test n b q = elim (Bool-cases (ltb (q / 8) n)) [
  | inl inside ↦
      let e : b_memset n b 0 255 (q / 8) ≡ 255 = ground (arith, b_memset-get n b 0 255 (q / 8)) in
      rw (inside, e)
        (passes_at (λ k. not (bit_and 255 (2 ^ k) == 0)) full_bits (q % 8) (omega arith))
  | inr outside ↦
      let e : b_memset n b 0 255 (q / 8) ≡ b (q / 8) =
        ground (arith, b_memset-get n b 0 255 (q / 8)) in
      rw (outside, e) refl
]

memory_end-lt : (ds : List MemDesc) (top : ℕ) → top < 2 ^ 64 → memory_end ds top < 2 ^ 64
unfolding memory_end
memory_end-lt [] top h = h
memory_end-lt (d ∷ ds) top h = memory_end-lt ds _ (ground arith)

-- The state of a page behind `pmm_init`, for a bitmap of `size` bytes at `base`.
abbrev pub initially : Bitmap → List MemDesc → (base size q : ℕ) → Bool
initially raw info base size q =
    if ltb q 4096 || within (base / 4096) ((size + 4095) / 4096) q
    then true
    else if usable info q
    then false
    else if ltb (q / 8) size
    then true
    else bitmap_test raw q

fill-test :
    (raw : Bitmap) (s : Pmm) (info : List MemDesc) (base size q : ℕ)
    → IsBytes raw
    → size < 2 ^ 63
    → bitmap_test (fill raw s info base size).bitmap q ≡ initially raw info base size q
unfolding fill
fill-test raw s info base size q h small =
    let blank = b_memset size raw 0 255 in
    let cleared : Pmm = record s { bitmap = blank; free_pages = 0; usable_pages = 0 } in
    let s' = clear_usable info cleared in
    let n = u64 (size + 4095) / 4096 in
    let first =
      clear_usable-Becomes info cleared q (b_memset-IsBytes size raw 0 255 (omega arith) h) in
    let last =
      reserve_low-Becomes 4096 0
        (record s' {
          bitmap = set_pages n s'.bitmap (base / 4096);
          free_pages = u64 (s'.free_pages + 2 ^ 64 - n);
        })
        q (set_pages-IsBytes n s'.bitmap (base / 4096) first.0) in
    let e : n ≡ (size + 4095) / 4096 = omega arith in
    ground (
      arith,
      last.1,
      test-set_pages n s'.bitmap (base / 4096) q first.0,
      e,
      first.1,
      b_memset-test size raw q,
    )

clear_usable-total : (ds : List MemDesc) (s : Pmm) → (clear_usable ds s).total_pages ≡ s.total_pages
unfolding clear_usable clear_region
clear_usable-total [] s = refl
clear_usable-total (d ∷ ds) s = ground (arith, clear_usable-total ds (clear_region d s))

reserve_low-total : (n i : ℕ) (s : Pmm) → (reserve_low n i s).total_pages ≡ s.total_pages
unfolding reserve_low reserve
reserve_low-total zero i s = refl
reserve_low-total (suc n) i s = ground (arith, reserve_low-total n (i + 1) (reserve i s))

fill-total :
    (raw : Bitmap) (s : Pmm) (info : List MemDesc) (base size : ℕ)
    → (fill raw s info base size).total_pages ≡ s.total_pages
unfolding fill
fill-total raw s info base size = reserve_low-total 4096 0 _ ∙ clear_usable-total info _

-- Once a place for the bitmap is found: every page below 16 MB and every page of the bitmap is
-- taken; of the others, the pages of the usable regions are free, and every other page with a bit
-- in the bitmap's whole bytes is taken. The bits behind these bytes keep what memory held, but for
-- the three kinds of pages named first.
pub pmm_init_test :
    (raw : Bitmap) (s : Pmm) (info : List MemDesc) (q : ℕ)
    → IsBytes raw
    → (pmm_init raw s info).0 ≢ 0
    → let (base, s') = pmm_init raw s info in
      bitmap_test s'.bitmap q ≡ initially raw info base (s'.total_pages / 8) q
unfolding pmm_init
pmm_init_test raw s info q h found =
    let top = memory_end info 0 in
    let size = top / 4096 / 8 in
    let bound = memory_end-lt info 0 (omega arith) in
    elim (Bool-cases (find_bitmap info size == 0)) [
      | inl none ↦ absurd (found (rw none refl))
      | inr at ↦
          let s' : Pmm = record s { highest_phys_address = top; total_pages = top / 4096 } in
          let base = find_bitmap info size in
          rw (at, fill-total raw s' info base size)
            (fill-test raw s' info base size q h (omega arith))
    ]
