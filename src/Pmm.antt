-- ===== src/Pmm.antt =====
-- src/kernel/pmm.c: the physical page allocator over a bitmap, one bit for a page, 1 for taken.
-- Each call holds `pmm_lock` with interrupts off, so it is one step.
pub mod Bits
pub mod Alloc
pub mod Free
pub mod One
pub mod Init
mod Tests
use Prim.Native.Nat.{bit_and, bit_or}
use barium.Prelude.{
  ℕ, zero, suc, ◌+◌, ◌-◌, ◌*◌, ◌/◌, ◌%◌, ◌^◌, Bool, true, false, not, Option, none, some, ◌==◌, ltb,
  leb, if◌then◌else◌,
}

-- The bytes of `bitmap`, by index.
abbrev pub Bitmap : Type 0
Bitmap = ℕ → ℕ

pub record Pmm : Type 0 where
  pub bitmap : Bitmap
  pub total_pages : ℕ
  pub usable_pages : ℕ
  pub free_pages : ℕ
  pub last_search_index : ℕ
  pub highest_phys_address : ℕ

abbrev pub u64 : ℕ → ℕ
u64 n = n % 2 ^ 64

abbrev pub write_byte : Bitmap → ℕ → ℕ → Bitmap
write_byte b i v j = if j == i then v else b j

-- `bitmap[page / 8] |= (1 << (page % 8))`
unfoldable pub bitmap_set : Bitmap → ℕ → Bitmap
bitmap_set b page = write_byte b (page / 8) (bit_or (b (page / 8)) (2 ^ (page % 8)))

-- `bitmap[page / 8] &= ~(1 << (page % 8))`, as bytes.
pub bitmap_clear : Bitmap → ℕ → Bitmap
bitmap_clear b page = write_byte b (page / 8) (bit_and (b (page / 8)) (255 - 2 ^ (page % 8)))

-- `(bitmap[page / 8] & (1 << (page % 8))) != 0`
unfoldable pub bitmap_test : Bitmap → ℕ → Bool
bitmap_test b page = not (bit_and (b (page / 8)) (2 ^ (page % 8)) == 0)

-- The inner loop of the search: the first offset from `j` on, of `n` more, whose page is taken.
unfoldable pub first_taken : ℕ → Bitmap → (i j : ℕ) → Option ℕ
first_taken zero b i j = none
first_taken (suc n) b i j =
    let later = first_taken n b i (j + 1) in if bitmap_test b (i + j) then some j else later

-- A search loop, from page `i` while `i < end`: the first run of `count` pages that is free.
-- A taken page at offset `j` moves the search behind it (`i += j`, then `i++`).
unfoldable pub search : (fuel : ℕ) → Bitmap → (count end i : ℕ) → Option ℕ
search zero b count end i = none
search (suc fuel) b count end i =
    let jump = search fuel b count end in
    if ltb i end
    then elim (first_taken count b i 0) [ none ↦ some i | some j ↦ jump (i + j + 1) ]
    else none

-- `for (j = 0; j < count; j++) bitmap_set(i + j)`, from the offset `j` on.
unfoldable pub set_pages : ℕ → Bitmap → ℕ → Bitmap
set_pages zero b page = b
set_pages (suc n) b page = set_pages n (bitmap_set b page) (page + 1)

pub clear_pages : ℕ → Bitmap → ℕ → Bitmap
clear_pages zero b page = b
clear_pages (suc n) b page = clear_pages n (bitmap_clear b page) (page + 1)

-- A hit of either loop of `pmm_alloc`.
unfoldable pub take_pages : Pmm → (count i : ℕ) → ℕ × Pmm
take_pages s count i = (
  u64 (i * 4096),
  record s {
    bitmap = set_pages count s.bitmap i;
    free_pages = u64 (s.free_pages + 2 ^ 64 - count);
    last_search_index = u64 (i + count);
  },
)

-- `total_pages - count` is `uint64_t` arithmetic.
unfoldable pub pmm_alloc : Pmm → ℕ → ℕ × Pmm
pmm_alloc s count =
    let start = s.last_search_index in
    let end = u64 (s.total_pages + 2 ^ 64 - count) in
    elim (search (end + 1) s.bitmap count end start) [
      | some i ↦ take_pages s count i
      | none ↦ elim (search (start + 1) s.bitmap count start 0) [
        | some i ↦ take_pages s count i
        | none ↦ (0, s)
      ]
    ]

pub pmm_free : Pmm → (ptr count : ℕ) → Pmm
pmm_free s ptr count = record s {
  bitmap = clear_pages count s.bitmap (ptr / 4096);
  free_pages = u64 (s.free_pages + count);
}

pub pmm_get_free_memory : Pmm → ℕ
pmm_get_free_memory s = u64 (s.free_pages * 4096)

pub pmm_get_used_memory : Pmm → ℕ
pmm_get_used_memory s = u64 (u64 (s.usable_pages + 2 ^ 64 - s.free_pages) * 4096)

pub pmm_get_total_memory : Pmm → ℕ
pmm_get_total_memory s = u64 (s.usable_pages * 4096)

pub pmm_get_highest_address : Pmm → ℕ
pmm_get_highest_address s = s.highest_phys_address
