-- ===== src/Pmm/Free.antt =====
-- `pmm_free` undoes `pmm_alloc`; the count of free pages; and a run past the last page.
use barium.Prelude.{
  ℕ, zero, suc, ◌+◌, ◌-◌, ◌*◌, ◌/◌, ◌^◌, ◌≤◌, ◌<◌, ◌≡◌, ◌≢◌, ◌⊎◌, true, false, arith, ◌==◌,
  if◌then◌else◌, Bool-cases, inl, inr,
}
use Prim.Native.Nat.{min}
use barium.Pmm.{Pmm, Bitmap, bitmap_test, pmm_alloc, pmm_free}
use barium.Pmm.Bits.{IsBytes, within, test-clear_pages}
use barium.Pmm.Alloc.{Free, IsPmm, pmm_alloc-Answer}

-- What `pmm_free` does to the pages it is given and to every other.
pub free_pages_test :
    (s : Pmm) (ptr count q : ℕ)
    → IsBytes s.bitmap
    → bitmap_test (pmm_free s ptr count).bitmap q
      ≡ (if within (ptr / 4096) count q then false else bitmap_test s.bitmap q)
unfolding pmm_free
free_pages_test s ptr count q h = test-clear_pages count s.bitmap (ptr / 4096) q h

-- The free run that was taken reads free.
Free-within :
    (b : Bitmap) (count k q : ℕ)
    → Free b count k
    → within k count q ≡ true
    → bitmap_test b q ≡ false
Free-within b count k q free h =
    let e : k + (q - k) ≡ q = ground arith in rw e at (free (q - k) (ground arith))

-- Under the conditions of `pmm_alloc` and with a 64-bit free count, giving back the pages that a
-- successful call returned restores the free count and the state of every page.
pub pmm_free-pmm_alloc :
    (s : Pmm) (count : ℕ)
    → IsPmm s
    → count ≤ s.total_pages
    → s.free_pages < 2 ^ 64
    → (pmm_alloc s count).0 ≢ 0
    → let (p, s') = pmm_alloc s count in
      let s'' = pmm_free s' p count in
      ((q : ℕ) → bitmap_test s''.bitmap q ≡ bitmap_test s.bitmap q)
      × (s''.free_pages ≡ s.free_pages)
pmm_free-pmm_alloc s count v le small found = elim (pmm_alloc-Answer s count v le) [
  | inr z ↦ absurd (found z.0)
  | inl t ↦
      let (p, s') = pmm_alloc s count in
      let e : p / 4096 ≡ t.page = omega (arith, t.address) in
      (
        λ q. ground (
          arith,
          free_pages_test s' p count q t.bytes,
          e,
          t.marked q,
          Free-within s.bitmap count t.page q t.was_free,
        ),
        unfold pmm_free in omega (arith, t.counted, v.small),
      )
]

-- How many of the first `n` pages are free.
unfoldable pub count_free : ℕ → Bitmap → ℕ
count_free zero b = 0
count_free (suc n) b = (if bitmap_test b n then 0 else 1) + count_free n b

count_free-le : (n : ℕ) (b : Bitmap) → count_free n b ≤ n
unfolding count_free
count_free-le zero b = omega arith
count_free-le (suc n) b = ground (arith, count_free-le n b)

pub count_free-marked :
    (n : ℕ) (b b' : Bitmap) (k count : ℕ)
    → Free b count k
    → ((q : ℕ) → bitmap_test b' q ≡ (if within k count q then true else bitmap_test b q))
    → count_free n b' + (min n (k + count) - min n k) ≡ count_free n b
unfolding count_free
count_free-marked zero b b' k count free h = omega arith
count_free-marked (suc n) b b' k count free h =
    ground (arith, h n, Free-within b count k n free, count_free-marked n b b' k count free h)

-- Under the conditions of `pmm_alloc`, and when the run returned ends inside memory, `pmm_alloc`
-- keeps `free_pages` the number of pages whose bit is clear.
pub pmm_alloc-count_free :
    (s : Pmm) (count : ℕ)
    → IsPmm s
    → count ≤ s.total_pages
    → s.free_pages ≡ count_free s.total_pages s.bitmap
    → (pmm_alloc s count).0 / 4096 + count ≤ s.total_pages
    → let s' = (pmm_alloc s count).1 in s'.free_pages ≡ count_free s'.total_pages s'.bitmap
pmm_alloc-count_free s count v le counted inside = elim (pmm_alloc-Answer s count v le) [
  | inr z ↦ rw (z.1) counted
  | inl t ↦
      let (p, s') = pmm_alloc s count in
      let sum =
        count_free-marked s.total_pages s.bitmap s'.bitmap t.page count t.was_free t.marked in
      let bound = count_free-le s.total_pages s.bitmap in
      rw (t.total) (omega (arith, t.counted, counted, t.address, sum, bound, inside, v.small))
]

-- The second search of `pmm_alloc` does not look whether its run ends below the last page: where the
-- only free run that starts where it looks starts before the place of the last search and reaches
-- past the end of memory, `pmm_alloc` returns it.
pub pmm_alloc_past_end :
    (s : Pmm) (count k : ℕ)
    → IsPmm s
    → count ≤ s.total_pages
    → k < s.last_search_index
    → s.total_pages < k + count
    → Free s.bitmap count k
    → ((k' : ℕ)
        → (k' + count < s.total_pages) ⊎ (k' < s.last_search_index)
        → k' ≢ k
        → ¬ Free s.bitmap count k')
    → (pmm_alloc s count).0 ≡ k * 4096
pmm_alloc_past_end s count k v le before past free only = elim (pmm_alloc-Answer s count v le) [
  | inr z ↦ absurd (z.2 k (inr before) free)
  | inl t ↦ elim (Bool-cases (t.page == k)) [
    | inl same ↦ ground (arith, t.address)
    | inr other ↦ absurd (only t.page t.place (ground arith) t.was_free)
  ]
]
