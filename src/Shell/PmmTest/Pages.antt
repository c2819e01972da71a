-- ===== src/Shell/PmmTest/Pages.antt =====
-- `pmmtest` gives back the pages that it takes, and finds its words in them.
use barium.Prelude.{
  ℕ, zero, suc, ◌*◌, ◌<◌, ◌≡◌, refl, ap, ◌∙◌, Bool, true, false, ◌&&◌, ◌||◌, not, some, List, [],
  ◌∷◌, ◌==◌, arith, Bool-cases, inl, inr,
}
use barium.Pmm.{Pmm, bitmap_test, pmm_alloc, pmm_free}
use barium.Pmm.Alloc.{IsPmm}
use barium.Pmm.One.{pages_left, pmm_alloc_one, pmm_free_one, count_free_same}
use barium.Vmm.{Words, write_word}
use barium.Shell.PmmTest.{
  ok, stress, end_lines, first_lines, stamp, take, intact, give_back, stress_pages, pmmtest,
}

-- The addresses of pages.
abbrev addresses : List ℕ → List ℕ
addresses [] = []
addresses (k ∷ ks) = (k * 4096) ∷ addresses ks

has : List ℕ → ℕ → Bool
has [] q = false
has (k ∷ ks) q = q == k || has ks q

-- A state with its page 0 taken, which is not handed out.
record IsReady (s : Pmm) : Type 0 where
  valid : IsPmm s
  first_taken : bitmap_test s.bitmap 0 ≡ true

-- What `take` does: pages that were free are taken, no other, and their words are written.
record Takes (n : ℕ) (s : Pmm) (w : Words) : Type 0 where
  pages : List ℕ
  s' : Pmm
  w' : Words
  run : take n s w ≡ some (addresses pages, s', w')
  ready : IsReady s'
  total : s'.total_pages ≡ s.total_pages
  were_free : (q : ℕ) → has pages q ≡ true → bitmap_test s.bitmap q ≡ false
  marked : (q : ℕ) → bitmap_test s'.bitmap q ≡ (has pages q || bitmap_test s.bitmap q)
  kept : (q : ℕ) → bitmap_test s.bitmap q ≡ true → w' (q * 4096) ≡ w (q * 4096)
  words : intact (addresses pages) w' ≡ true

take-Takes : (n : ℕ) (s : Pmm) (w : Words) → IsReady s → n < pages_left s → Takes n s w
unfolding take has intact
take-Takes zero s w v room = record {
  pages = [];
  s' = s;
  w' = w;
  run = refl;
  ready = v;
  total = refl;
  were_free = λ q h. absurd (cc);
  marked = λ q. refl;
  kept = λ q e. refl;
  words = refl;
}
take-Takes (suc n) s w v room =
    let o = pmm_alloc_one s v.valid (omega (arith, room)) in
    let k = o.page in
    let s₁ = (pmm_alloc s 1).1 in
    let w₁ = write_word w (k * 4096) (stamp (k * 4096)) in
    let nonzero : (k == 0) ≡ false = elim (Bool-cases (k == 0)) [
      | inr other ↦ other
      | inl zero_page ↦
          let e : k ≡ 0 = ground arith in
          let free : bitmap_test s.bitmap 0 ≡ false = rw e at o.was_free in
          let taken = v.first_taken in absurd (cc)
    ] in
    let ready : IsReady s₁ = record {
      valid = o.valid;
      first_taken = ground (arith, o.marked 0, v.first_taken);
    } in
    let t = take-Takes n s₁ w₁ ready (omega (arith, room, o.left)) in
    let address : (k * 4096 == 0) ≡ false = ground (arith, nonzero) in
    let here : bitmap_test s₁.bitmap k ≡ true = ground (arith, o.marked k) in
    let word : t.w' (k * 4096) ≡ stamp (k * 4096) = t.kept k here ∙ ground arith in
    let same : (stamp (k * 4096) == stamp (k * 4096)) ≡ true = ground arith in
    record {
      pages = k ∷ t.pages;
      s' = t.s';
      w' = t.w';
      run = rw (o.address, address, t.run) refl;
      ready = t.ready;
      total = t.total ∙ o.total;
      were_free = λ q h. ground (arith, o.marked q, o.was_free, t.were_free q);
      marked = λ q. ground (arith, o.marked q, t.marked q);
      kept = λ q e. ground (arith, o.marked q, o.was_free, t.kept q);
      words = rw (word, same) t.words;
    }

-- What `give_back` does.
record Gives (pages : List ℕ) (s s' : Pmm) : Type 0 where
  valid : IsPmm s'
  total : s'.total_pages ≡ s.total_pages
  cleared : (q : ℕ) → bitmap_test s'.bitmap q ≡ (not (has pages q) && bitmap_test s.bitmap q)

give_back-Gives :
    (pages : List ℕ) (s : Pmm) → IsPmm s → Gives pages s (give_back (addresses pages) s)
unfolding give_back has
give_back-Gives [] s v = record { valid = v; total = refl; cleared = λ q. refl }
give_back-Gives (k ∷ ks) s v =
    let g = pmm_free_one s k v in
    let later = give_back-Gives ks (pmm_free s (k * 4096) 1) g.valid in
    record {
      valid = later.valid;
      total = later.total ∙ g.total;
      cleared = λ q. ground (arith, g.cleared q, later.cleared q);
    }

-- Two states of the same pages.
SamePages : Pmm → Pmm → Type 0
SamePages s s' = (q : ℕ) → bitmap_test s'.bitmap q ≡ bitmap_test s.bitmap q

stress_pages-SamePages :
    (s : Pmm) (w : Words)
    → IsReady s
    → 256 < pages_left s
    → (s' : Pmm) × (w' : Words) × (stress_pages s w ≡ some (true, s', w'))
      × IsPmm s'
      × SamePages s s'
unfolding stress_pages SamePages
stress_pages-SamePages s w v room =
    let t = take-Takes 256 s w v room in
    let g = give_back-Gives t.pages t.s' t.ready.valid in
    (
      give_back (addresses t.pages) t.s',
      t.w',
      rw (t.run) (ap (λ b. some (b, give_back (addresses t.pages) t.s', t.w')) t.words),
      g.valid,
      λ q. ground (arith, g.cleared q, t.marked q, t.were_free q),
    )

-- While 257 pages are left and the first page is taken, `pmmtest` ends, its first allocation succeeds
-- and the words that it writes to 256 pages are intact: it prints so; and every page is free or taken
-- as it was.
pub pmmtest_restores :
    (s : Pmm) (w : Words)
    → IsPmm s
    → bitmap_test s.bitmap 0 ≡ true
    → 256 < pages_left s
    → (s' : Pmm) × (w' : Words) × (pmmtest s w
        ≡ some (first_lines s ok (stress ∷ end_lines true), s', w'))
      × IsPmm s'
      × ((q : ℕ) → bitmap_test s'.bitmap q ≡ bitmap_test s.bitmap q)
unfolding pmmtest SamePages
pmmtest_restores s w v first room =
    let o = pmm_alloc_one s v (omega (arith, room)) in
    let s₁ = (pmm_alloc s 1).1 in
    let g = pmm_free_one s₁ o.page o.valid in
    let s₂ = pmm_free s₁ (o.page * 4096) 1 in
    let back : (q : ℕ) → bitmap_test s₂.bitmap q ≡ bitmap_test s.bitmap q =
      λ q. ground (arith, g.cleared q, o.marked q, o.was_free) in
    let left : pages_left s₂ ≡ pages_left s =
      rw (g.total, o.total) (count_free_same s.total_pages s.bitmap s₂.bitmap back) in
    let ready : IsReady s₂ = record { valid = g.valid; first_taken = back 0 ∙ first } in
    let (s', w', run, valid, same) =
      stress_pages-SamePages s₂ w ready (omega (arith, room, left)) in
    let nonzero : (o.page * 4096 == 0) ≡ false = elim (Bool-cases (o.page == 0)) [
      | inr other ↦ ground (arith, other)
      | inl zero_page ↦
          let e : o.page ≡ 0 = ground arith in
          let free : bitmap_test s.bitmap 0 ≡ false = rw e at o.was_free in absurd (cc)
    ] in
    (s', w', rw (o.address, nonzero, run) refl, valid, λ q. same q ∙ back q)
