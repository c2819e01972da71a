-- ===== src/Pmm/Init.antt =====
-- `pmm_init`: the bitmap as the firmware's memory map sets it up.
pub mod Pages
use barium.Prelude.{
  ℕ, zero, suc, ◌+◌, ◌-◌, ◌*◌, ◌/◌, ◌^◌, Bool, ◌&&◌, ◌==◌, ltb, leb, if◌then◌else◌, List, [], ◌∷◌,
}
use barium.Pmm.{Pmm, Bitmap, u64, write_byte, bitmap_test, bitmap_set, set_pages, clear_pages}

pub record MemDesc : Type 0 where
  pub desc_type : ℕ
  pub physical_start : ℕ
  pub number_of_pages : ℕ

-- `b_memset` on the bitmap, from the byte `i` on.
pub b_memset : ℕ → Bitmap → (i v : ℕ) → Bitmap
b_memset zero b i v = b
b_memset (suc n) b i v = b_memset n (write_byte b i v) (i + 1) v

-- The first loop: where the last usable region ends.
unfoldable pub memory_end : List MemDesc → ℕ → ℕ
memory_end [] top = top
memory_end (d ∷ ds) top =
    let end = u64 (d.physical_start + u64 (d.number_of_pages * 4096)) in
    memory_end ds (if d.desc_type == 7 then (if ltb top end then end else top) else top)

-- The second loop: the first usable region that holds the bitmap, from 16 MB on; 0 if there is none.
unfoldable pub find_bitmap : List MemDesc → ℕ → ℕ
find_bitmap [] size = 0
find_bitmap (d ∷ ds) size =
    if d.desc_type == 7
      && leb size (u64 (d.number_of_pages * 4096))
      && leb 0x100_0000 d.physical_start
    then d.physical_start
    else find_bitmap ds size

-- The third loop: the usable regions are cleared and counted.
pub clear_region : MemDesc → Pmm → Pmm
clear_region d s =
    if d.desc_type == 7
    then record s {
      bitmap = clear_pages d.number_of_pages s.bitmap (d.physical_start / 4096);
      usable_pages = u64 (s.usable_pages + d.number_of_pages);
      free_pages = u64 (s.free_pages + d.number_of_pages);
    }
    else s

pub clear_usable : List MemDesc → Pmm → Pmm
clear_usable [] s = s
clear_usable (d ∷ ds) s = clear_usable ds (clear_region d s)

-- The last loop: the pages below 16 MB, from `i` on, of which a free one leaves the count.
pub reserve : ℕ → Pmm → Pmm
reserve i s =
    if bitmap_test s.bitmap i
    then s
    else record s { bitmap = bitmap_set s.bitmap i; free_pages = u64 (s.free_pages + 2 ^ 64 - 1) }

pub reserve_low : ℕ → ℕ → Pmm → Pmm
reserve_low zero i s = s
reserve_low (suc n) i s = reserve_low n (i + 1) (reserve i s)

-- What follows once `bitmap` is chosen: `raw` is what memory holds there before.
pub fill : Bitmap → Pmm → List MemDesc → (base size : ℕ) → Pmm
fill raw s info base size =
    let cleared = record s { bitmap = b_memset size raw 0 255; free_pages = 0; usable_pages = 0 } in
    let s' = clear_usable info cleared in
    let n = u64 (size + 4095) / 4096 in
    reserve_low 4096 0 (record s' {
      bitmap = set_pages n s'.bitmap (base / 4096);
      free_pages = u64 (s'.free_pages + 2 ^ 64 - n);
    })

-- The address of `bitmap`, and the state. Without a place for it, only the totals are set.
unfoldable pub pmm_init : Bitmap → Pmm → List MemDesc → ℕ × Pmm
pmm_init raw s info =
    let top = memory_end info 0 in
    let size = top / 4096 / 8 in
    let base = find_bitmap info size in
    let s' = record s { highest_phys_address = top; total_pages = top / 4096 } in
    if base == 0 then (0, s') else (base, fill raw s' info base size)
