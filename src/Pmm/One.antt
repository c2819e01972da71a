-- ===== src/Pmm/One.antt =====
-- `pmm_alloc` of one page, while pages are left.
use barium.Prelude.{
  ℕ, zero, suc, ◌+◌, ◌*◌, ◌/◌, ◌≤◌, ◌<◌, ◌≡◌, refl, true, false, inl, inr, arith, ◌==◌,
  if◌then◌else◌, Bool-cases,
}
use barium.Pmm.{Pmm, Bitmap, bitmap_test, pmm_alloc, pmm_free}
use barium.Pmm.Alloc.{IsPmm, Took, pmm_alloc-Answer}
use barium.Pmm.Bits.{clear_pages-IsBytes}
use barium.Pmm.Free.{count_free, count_free-marked, free_pages_test}

-- The number of free pages.
abbrev pub pages_left : Pmm → ℕ
pages_left s = count_free s.total_pages s.bitmap

-- One page, which was free, is taken, and no other changes.
pub record TookOne (s : Pmm) (p : ℕ) (s' : Pmm) : Type 0 where
  pub page : ℕ
  pub address : p ≡ page * 4096
  pub was_free : bitmap_test s.bitmap page ≡ false
  pub marked :
      (q : ℕ) → bitmap_test s'.bitmap q ≡ (if q == page then true else bitmap_test s.bitmap q)
  pub valid : IsPmm s'
  pub total : s'.total_pages ≡ s.total_pages
  pub left : pages_left s' + 1 ≡ pages_left s

find_free :
    (n : ℕ) (b : Bitmap) → 0 < count_free n b → (k : ℕ) × (k < n) × (bitmap_test b k ≡ false)
unfolding count_free
find_free zero b h = absurd (omega arith)
find_free (suc n) b h = elim (Bool-cases (bitmap_test b n)) [
  | inr free ↦ (n, omega arith, free)
  | inl taken ↦
      let later : 0 < count_free n b = ground arith in
      let (k, lt, free) = find_free n b later in (k, omega arith, free)
]

count_free-pred :
    (n : ℕ) (b : Bitmap) → 1 < count_free n b → (m : ℕ) × (n ≡ suc m) × (0 < count_free m b)
unfolding count_free
count_free-pred zero b h = absurd (omega arith)
count_free-pred (suc n) b h = (n, refl, ground arith)

took_one : (s : Pmm) (p : ℕ) (s' : Pmm) → IsPmm s → Took s 1 p s' → TookOne s p s'
took_one s p s' v t =
    let below : t.page < s.total_pages = ground (arith, t.place, v.start_in) in
    let was_free : bitmap_test s.bitmap (t.page + 0) ≡ false = t.was_free 0 (omega arith) in
    let e : t.page + 0 ≡ t.page = omega arith in
    record {
      page = t.page;
      address = t.address;
      was_free = rw e at was_free;
      marked = λ q. ground (arith, t.marked q);
      valid = record {
        bytes = t.bytes;
        small = omega (arith, t.total, v.small);
        start_in = omega (arith, t.resumes, t.total, below);
      };
      total = t.total;
      left = rw (t.total) (
          omega (
            arith,
            below,
            count_free-marked s.total_pages s.bitmap s'.bitmap t.page 1 t.was_free t.marked,
          ));
    }

-- While two pages are left, `pmm_alloc` of one page takes one.
pub pmm_alloc_one :
    (s : Pmm) → IsPmm s → 1 < pages_left s → let (p, s') = pmm_alloc s 1 in TookOne s p s'
pmm_alloc_one s v h =
    let (m, e, some_left) = count_free-pred s.total_pages s.bitmap h in
    let (k, lt, free) = find_free m s.bitmap some_left in
    let (p, s') = pmm_alloc s 1 in
    elim (pmm_alloc-Answer s 1 v (omega arith)) [
      | inl t ↦ took_one s p s' v t
      | inr (zero_result, same, none_free) ↦
          absurd
            (none_free k (inl (omega arith)) (λ j lt. let e : k + j ≡ k = omega arith in rw e free))
    ]

-- A state with pages at all.
abbrev pub HasPages : Pmm → Type 0
HasPages s = IsPmm s × (0 < s.total_pages)

-- An allocation, successful or not, leaves no more pages than there were.
pub pmm_alloc-left :
    (s : Pmm)
    → HasPages s
    → let s' = (pmm_alloc s 1).1 in HasPages s' × (pages_left s' ≤ pages_left s)
pmm_alloc-left s v =
    let s' = (pmm_alloc s 1).1 in
    elim (pmm_alloc-Answer s 1 v.0 v.1) [
      | inl t ↦
          let o = took_one s _ s' v.0 t in
          ((o.valid, omega (arith, t.total, v.1)), omega (arith, o.left))
      | inr z ↦ rw (z.1) (v, omega arith)
    ]

-- One page is given back, and no other changes.
pub record GaveOne (s : Pmm) (page : ℕ) (s' : Pmm) : Type 0 where
  pub valid : IsPmm s'
  pub total : s'.total_pages ≡ s.total_pages
  pub cleared :
      (q : ℕ) → bitmap_test s'.bitmap q ≡ (if q == page then false else bitmap_test s.bitmap q)

pub pmm_free_one : (s : Pmm) (page : ℕ) → IsPmm s → GaveOne s page (pmm_free s (page * 4096) 1)
unfolding pmm_free
pmm_free_one s page v = record {
  valid = record {
    bytes = clear_pages-IsBytes 1 s.bitmap (page * 4096 / 4096) v.bytes;
    small = v.small;
    start_in = v.start_in;
  };
  total = refl;
  cleared = λ q. ground (arith, free_pages_test s (page * 4096) 1 q v.bytes);
}

pub count_free_same :
    (n : ℕ) (b b' : Bitmap)
    → ((q : ℕ) → bitmap_test b' q ≡ bitmap_test b q)
    → count_free n b' ≡ count_free n b
unfolding count_free
count_free_same zero b b' h = refl
count_free_same (suc n) b b' h = ground (arith, h n, count_free_same n b b' h)
