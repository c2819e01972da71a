-- ===== src/Pmm/Alloc.antt =====
-- `pmm_alloc`: which pages it returns, and what it marks.
use barium.Prelude.{
  ℕ, zero, suc, ◌+◌, ◌-◌, ◌*◌, ◌^◌, ◌≤◌, ◌<◌, ◌≡◌, refl, ◌⊎◌, Option, none, some, true, false,
  arith, ◌==◌, ltb, leb, if◌then◌else◌, Bool-cases, inl, inr,
}
use barium.Pmm.{Pmm, Bitmap, u64, bitmap_test, first_taken, search, take_pages, pmm_alloc}
use barium.Pmm.Bits.{IsBytes, within, test-set_pages, set_pages-IsBytes}

-- The `count` pages from `k` on are free.
abbrev pub Free : Bitmap → ℕ → ℕ → Type 0
Free b count k = (j : ℕ) → j < count → bitmap_test b (k + j) ≡ false

-- What the inner loop finds from the offset `j` on.
abbrev Clear : ℕ → Bitmap → (i j : ℕ) → Option ℕ → Type 0
Clear n b i j none = (k : ℕ) → j ≤ k → k < j + n → bitmap_test b (i + k) ≡ false
Clear n b i j (some k) = (j ≤ k) × (k < j + n) × (bitmap_test b (i + k) ≡ true)

Clear-step :
    (n : ℕ) (b : Bitmap) (i j : ℕ) (o : Option ℕ)
    → bitmap_test b (i + j) ≡ false
    → Clear n b i (j + 1) o
    → Clear (suc n) b i j o
Clear-step n b i j none e h = λ k le lt. elim (Bool-cases (k == j)) [
  | inl same ↦ let eq : k ≡ j = ground arith in rw eq e
  | inr other ↦ h k (ground arith) (omega arith)
]
Clear-step n b i j (some k) e h = (omega (arith, h.0), omega (arith, h.1), h.2)

first_taken-Clear : (n : ℕ) (b : Bitmap) (i j : ℕ) → Clear n b i j (first_taken n b i j)
unfolding first_taken
first_taken-Clear zero b i j = λ k le lt. absurd (omega arith)
first_taken-Clear (suc n) b i j = elim (Bool-cases (bitmap_test b (i + j))) [
  | inl taken ↦ rw taken (omega arith, omega arith, taken)
  | inr free ↦
      rw free
        (Clear-step n b i j (first_taken n b i (j + 1)) free (first_taken-Clear n b i (j + 1)))
]

-- What a search loop finds: the first free run that starts in its range, or that there is none.
abbrev pub FirstFit : Bitmap → (count end i : ℕ) → Option ℕ → Type 0
FirstFit b count end i none = (k : ℕ) → i ≤ k → k < end → ¬ Free b count k
FirstFit b count end i (some k) =
    (i ≤ k) × (k < end) × Free b count k × ((k' : ℕ) → i ≤ k' → k' < k → ¬ Free b count k')

-- No free run starts where a taken page at offset `j` is met.
skip_taken :
    (b : Bitmap) (count i j : ℕ)
    → j < count
    → bitmap_test b (i + j) ≡ true
    → (k : ℕ) → i ≤ k
    → k ≤ i + j
    → ¬ Free b count k
skip_taken b count i j lt taken k le le' free =
    let e : k + (i + j - k) ≡ i + j = omega arith in
    let clear = free (i + j - k) (omega arith) in
    let clear' : bitmap_test b (i + j) ≡ false = rw e at clear in cc

fit_step :
    (b : Bitmap) (count end i j : ℕ) (o : Option ℕ)
    → j < count
    → bitmap_test b (i + j) ≡ true
    → FirstFit b count end (i + j + 1) o
    → FirstFit b count end i o
fit_step b count end i j none lt taken h = λ k le below. elim (Bool-cases (leb k (i + j))) [
  | inl near ↦ skip_taken b count i j lt taken k le (ground arith)
  | inr far ↦ h k (ground arith) below
]
fit_step b count end i j (some k) lt taken h = (
  omega (arith, h.0),
  h.1,
  h.2,
  λ k' le below. elim (Bool-cases (leb k' (i + j))) [
    | inl near ↦ skip_taken b count i j lt taken k' le (ground arith)
    | inr far ↦ h.3 k' (ground arith) below
  ],
)

fit_round :
    (b : Bitmap) (count end i : ℕ) (jump : ℕ → Option ℕ) (o : Option ℕ)
    → i < end
    → Clear count b i 0 o
    → ((j : ℕ) → FirstFit b count end (i + j + 1) (jump (i + j + 1)))
    → FirstFit b count end i (elim o [ none ↦ some i | some j ↦ jump (i + j + 1) ])
fit_round b count end i jump none lt h later =
    (omega arith, lt, λ j small. h j (omega arith) (omega arith), λ k le less. absurd (omega arith))
fit_round b count end i jump (some j) lt h later =
    fit_step b count end i j (jump (i + j + 1)) (omega (arith, h.1)) h.2 (later j)

-- With more fuel than rounds the search gives the first free run in its range.
search-FirstFit :
    (f : ℕ) (b : Bitmap) (count end i : ℕ)
    → end - i < f
    → FirstFit b count end i (search f b count end i)
unfolding search
search-FirstFit zero b count end i fuel = absurd (omega arith)
search-FirstFit (suc f) b count end i fuel = elim (Bool-cases (ltb i end)) [
  | inl go ↦ rw go (
      fit_round b count end i (search f b count end) (first_taken count b i 0) (ground arith)
        (first_taken-Clear count b i 0)
        (λ j. search-FirstFit f b count end (i + j + 1) (ground arith)))
  | inr stop ↦ rw stop (λ k le lt. absurd (ground arith))
]

-- The state that the calls keep: the bitmap is made of bytes, and addresses fit 64 bits.
pub record IsPmm (s : Pmm) : Type 0 where
  pub bytes : IsBytes s.bitmap
  pub small : s.total_pages < 2 ^ 51
  pub start_in : s.last_search_index ≤ s.total_pages

-- No free run that starts in the range ends below the last page.
abbrev NoneBehind : Pmm → ℕ → Type 0
NoneBehind s count =
    (k : ℕ) → s.last_search_index ≤ k → k < s.total_pages - count → ¬ Free s.bitmap count k

-- Where a page stands among the free runs: it starts the first one from the place of the last search
-- on; or there is none from there on, and it starts the first one before.
abbrev pub IsFirst : Pmm → (count page : ℕ) → Type 0
IsFirst s count page =
    ((s.last_search_index ≤ page)
      × (page + count < s.total_pages)
      × ((k : ℕ) → s.last_search_index ≤ k → k < page → ¬ Free s.bitmap count k))
    ⊎ ((page < s.last_search_index)
        × NoneBehind s count
        × ((k : ℕ) → k < page → ¬ Free s.bitmap count k))

-- What a successful call did: `count` free pages, the first such run behind the place where the
-- last search ended or else the first before it, are marked, and no other page changes.
pub record Took (s : Pmm) (count p : ℕ) (s' : Pmm) : Type 0 where
  pub page : ℕ
  pub address : p ≡ page * 4096
  pub was_free : Free s.bitmap count page
  pub place : (page + count < s.total_pages) ⊎ (page < s.last_search_index)
  pub first : IsFirst s count page
  pub marked :
      (q : ℕ)
      → bitmap_test s'.bitmap q ≡ (if within page count q then true else bitmap_test s.bitmap q)
  pub bytes : IsBytes s'.bitmap
  pub counted : s'.free_pages ≡ u64 (s.free_pages + 2 ^ 64 - count)
  pub resumes : s'.last_search_index ≡ page + count
  pub total : s'.total_pages ≡ s.total_pages

take_pages-Took :
    (s : Pmm) (count k : ℕ)
    → IsPmm s
    → count ≤ s.total_pages
    → Free s.bitmap count k
    → IsFirst s count k
    → let (p, s') = take_pages s count k in Took s count p s'
unfolding take_pages
take_pages-Took s count k v le free first =
    let place : (k + count < s.total_pages) ⊎ (k < s.last_search_index) = elim first [
      | inl behind ↦ inl behind.1
      | inr before ↦ inr before.0
    ] in
    let bounded : k < 2 ^ 51 = ground (arith, v.small, v.start_in) in
    record {
      page = k;
      address = omega (arith, v.small);
      was_free = free;
      place = place;
      first = first;
      marked = λ q. test-set_pages count s.bitmap k q v.bytes;
      bytes = set_pages-IsBytes count s.bitmap k v.bytes;
      counted = refl;
      resumes = omega (arith, v.small);
      total = refl;
    }

-- No run of free pages where `pmm_alloc` looks.
abbrev pub NoRun : Pmm → ℕ → Type 0
NoRun s count =
    (k : ℕ) → (k + count < s.total_pages) ⊎ (k < s.last_search_index) → ¬ Free s.bitmap count k

abbrev pub Answer : Pmm → ℕ → ℕ × Pmm → Type 0
Answer s count (p, s') = Took s count p s' ⊎ ((p ≡ 0) × (s' ≡ s) × NoRun s count)

alloc_second :
    (s : Pmm) (count : ℕ) (o : Option ℕ)
    → IsPmm s
    → count ≤ s.total_pages
    → NoneBehind s count
    → FirstFit s.bitmap count s.last_search_index 0 o
    → Answer s count (elim o [ some i ↦ take_pages s count i | none ↦ (0, s) ])
alloc_second s count (some k) v le none_behind h = inl (
    take_pages-Took s count k v le h.2
      (inr (h.1, none_behind, λ k' below. h.3 k' (omega arith) below)))
alloc_second s count none v le none_behind h = inr (
  refl,
  refl,
  λ k place. elim (Bool-cases (ltb k s.last_search_index)) [
    | inl before ↦ h k (omega arith) (ground arith)
    | inr behind ↦ none_behind k (ground arith) (ground arith)
  ],
)

alloc_first :
    (s : Pmm) (count end : ℕ) (o : Option ℕ) (second : ℕ × Pmm)
    → end ≡ s.total_pages - count
    → IsPmm s
    → count ≤ s.total_pages
    → FirstFit s.bitmap count end s.last_search_index o
    → (NoneBehind s count → Answer s count second)
    → Answer s count (elim o [ some i ↦ take_pages s count i | none ↦ second ])
alloc_first s count end (some k) second e v le h later =
    inl (take_pages-Took s count k v le h.2 (inl (h.0, omega (arith, h.1), h.3)))
alloc_first s count end none second e v le h later = later λ k lo hi. h k lo (omega arith)

-- In a state whose bitmap is made of bytes, with fewer than 2^51 pages and the last search ended
-- inside memory: for at most as many pages as there are, `pmm_alloc` either returns the address of that many free
-- pages, marks exactly these, and lowers the free count by their number, and these are the first such
-- run from the place of the last search on that ends below the last page, or, where there is none, the
-- first one that starts before that place; or it returns 0, changes
-- nothing, and no free run of that length starts where it looks: before the place where the last
-- search ended, or so that it ends below the last page.
pub pmm_alloc-Answer :
    (s : Pmm) (count : ℕ) → IsPmm s → count ≤ s.total_pages → Answer s count (pmm_alloc s count)
unfolding pmm_alloc
pmm_alloc-Answer s count v le =
    let end = u64 (s.total_pages + 2 ^ 64 - count) in
    let start = s.last_search_index in
    alloc_first s count end (search (end + 1) s.bitmap count end start) _ (omega (arith, v.small)) v
      le (search-FirstFit (end + 1) s.bitmap count end start (omega arith))
      (λ behind.
        alloc_second s count (search (start + 1) s.bitmap count start 0) v le behind
          (search-FirstFit (start + 1) s.bitmap count start 0 (omega arith)))
