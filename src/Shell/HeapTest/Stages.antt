-- ===== src/Shell/HeapTest/Stages.antt =====
-- The stages of `heaptest` on a heap whose only free block is its last.
use barium.Prelude.{
  ℕ, ◌+◌, ◌-◌, ◌<◌, ◌≡◌, ◌≢◌, ap, true, false, some, List, [], ◌∷◌, arith, length, ◌==◌,
}
use barium.Heap.{Heap, round_up, kmalloc, kfree}
use barium.Heap.Layout.{Seg, seg, carve, alloc, mark, merge_from, merge, is_block}
use barium.Heap.Tail.{Ends, kmalloc-Ends, kfree-Ends}
use barium.Shell.HeapTest.{reclaims, coalesces}

abbrev pub used : ℕ → Seg
used n = seg n false

abbrev pub unused : ℕ → Seg
unused n = seg n true

-- The two calls, with what they make of the tail given as an equation.
pub serves :
    (f size p : ℕ) {u r r' : List Seg} {b : ℕ} {h : Heap}
    → Ends u r b h
    → size ≢ 0
    → length u + length r < f
    → alloc (round_up size) b r ≡ (p, r')
    → (h' : Heap) × (kmalloc f h size ≡ some (p, h')) × Ends u r' b h'
serves f size p {u} {r} {r'} {b} {h} t ne fuel e =
    rw e at (kmalloc-Ends f size {u = u} {r = r} {b = b} {h = h} t ne fuel)

pub frees :
    (f p : ℕ) {u r r' : List Seg} {b : ℕ} {h : Heap}
    → Ends u r b h
    → is_block p b r ≡ true
    → b < p
    → length u + length r < f
    → merge (mark p b r) ≡ r'
    → (h' : Heap) × (kfree f h p ≡ some h') × Ends u r' b h'
frees f p {u} {r} {r'} {b} {h} t here lt fuel e =
    rw e at (kfree-Ends f p {u = u} {r = r} {b = b} {h = h} t here lt fuel)

module _ (b m : ℕ) where
  first : 168 < m → alloc 128 b (unused m ∷ []) ≡ (b + 24, used 128 ∷ unused (m - 152) ∷ [])
  unfolding alloc carve
  first h = ground arith

  second :
      296 < m
      → alloc 256 b (used 128 ∷ unused m ∷ [])
        ≡ (b + 176, used 128 ∷ used 256 ∷ unused (m - 280) ∷ [])
  unfolding alloc carve
  second h = ground arith

  third :
      168 < m
      → alloc 128 b (used 128 ∷ used 256 ∷ unused m ∷ [])
        ≡ (b + 456, used 128 ∷ used 256 ∷ used 128 ∷ unused (m - 152) ∷ [])
  unfolding alloc carve
  third h = ground arith

  frees_second :
      merge (mark (b + 176) b (used 128 ∷ used 256 ∷ used 128 ∷ unused m ∷ []))
      ≡ used 128 ∷ unused 256 ∷ used 128 ∷ unused m ∷ []
  unfolding merge mark merge_from
  frees_second = ground arith

  reuse :
      alloc 200 b (used 128 ∷ unused 256 ∷ used 128 ∷ unused m ∷ [])
      ≡ (b + 176, used 128 ∷ used 200 ∷ unused 32 ∷ used 128 ∷ unused m ∷ [])
  unfolding alloc carve
  reuse = ground arith

  frees_first :
      merge (mark (b + 24) b (used 128 ∷ used 200 ∷ unused 32 ∷ used 128 ∷ unused m ∷ []))
      ≡ unused 128 ∷ used 200 ∷ unused 32 ∷ used 128 ∷ unused m ∷ []
  unfolding merge mark merge_from
  frees_first = ground arith

  frees_third :
      merge (mark (b + 456) b (unused 128 ∷ used 200 ∷ unused 32 ∷ used 128 ∷ unused m ∷ []))
      ≡ unused 128 ∷ used 200 ∷ unused (m + 208) ∷ []
  unfolding merge mark merge_from
  frees_third = ground arith

  frees_last :
      merge (mark (b + 176) b (unused 128 ∷ used 200 ∷ unused m ∷ [])) ≡ unused (m + 376) ∷ []
  unfolding merge mark merge_from
  frees_last = ground arith

  -- The second stage.
  beside :
      168 < m
      → alloc 128 b (used 128 ∷ unused m ∷ [])
        ≡ (b + 176, used 128 ∷ used 128 ∷ unused (m - 152) ∷ [])
  unfolding alloc carve
  beside h = ground arith

  frees_left :
      merge (mark (b + 24) b (used 128 ∷ used 128 ∷ unused m ∷ []))
      ≡ unused 128 ∷ used 128 ∷ unused m ∷ []
  unfolding merge mark merge_from
  frees_left = ground arith

  frees_right :
      merge (mark (b + 176) b (unused 128 ∷ used 128 ∷ unused m ∷ [])) ≡ unused (m + 304) ∷ []
  unfolding merge mark merge_from
  frees_right = ground arith

  joined : 296 < m → alloc 256 b (unused m ∷ []) ≡ (b + 24, used 256 ∷ unused (m - 280) ∷ [])
  unfolding alloc carve
  joined h = ground arith

  frees_joined : merge (mark (b + 24) b (used 256 ∷ unused m ∷ [])) ≡ unused (m + 280) ∷ []
  unfolding merge mark merge_from
  frees_joined = ground arith

-- The first stage takes the hole again, and leaves the heap as it was.
pub reclaims_hole :
    (f n b : ℕ) (u : List Seg) (h : Heap)
    → Ends u (unused n ∷ []) b h
    → 1000 < n
    → length u + 8 < f
    → (h' : Heap) × (reclaims f h ≡ some (true, h')) × Ends u (unused n ∷ []) b h'
unfolding reclaims round_up is_block
reclaims_hole f n b u h t big fuel =
    let (h₁, r₁, t₁) =
      serves f 128 (b + 24) t (omega arith) (omega (arith, fuel)) (first b n (omega arith)) in
    let n₁ = n - 152 in
    let (h₂, r₂, t₂) =
      serves f 256 (b + 176) t₁ (omega arith) (omega (arith, fuel)) (second b n₁ (omega arith)) in
    let n₂ = n₁ - 280 in
    let (h₃, r₃, t₃) =
      serves f 128 (b + 456) t₂ (omega arith) (omega (arith, fuel)) (third b n₂ (omega arith)) in
    let n₃ = n₂ - 152 in
    let (h₄, r₄, t₄) =
      frees f (b + 176) t₃ (ground arith) (omega arith) (omega (arith, fuel)) (frees_second b n₃) in
    let (h₅, r₅, t₅) = serves f 200 (b + 176) t₄ (omega arith) (omega (arith, fuel)) (reuse b n₃) in
    let (h₆, r₆, t₆) =
      frees f (b + 24) t₅ (ground arith) (omega arith) (omega (arith, fuel)) (frees_first b n₃) in
    let (h₇, r₇, t₇) =
      frees f (b + 456) t₆ (ground arith) (omega arith) (omega (arith, fuel)) (frees_third b n₃) in
    let (h₈, r₈, t₈) =
      frees f (b + 176) t₇ (ground arith) (omega arith) (omega (arith, fuel))
        (frees_last b (n₃ + 208)) in
    let back : n₃ + 208 + 376 ≡ n = omega (arith, big) in
    let same : (b + 176 == b + 176) ≡ true = ground arith in
    (h₈, rw (r₁, r₂, r₃, r₄, r₅, r₆, r₇, r₈) (ap (λ x. some (x, h₈)) same), rw back at t₈)

-- The second stage takes the place of both blocks, and leaves the heap as it was.
pub coalesces_both :
    (f n b : ℕ) (u : List Seg) (h : Heap)
    → Ends u (unused n ∷ []) b h
    → 1000 < n
    → length u + 8 < f
    → (h' : Heap) × (coalesces f h ≡ some (true, h')) × Ends u (unused n ∷ []) b h'
unfolding coalesces round_up is_block
coalesces_both f n b u h t big fuel =
    let (h₁, r₁, t₁) =
      serves f 128 (b + 24) t (omega arith) (omega (arith, fuel)) (first b n (omega arith)) in
    let n₁ = n - 152 in
    let (h₂, r₂, t₂) =
      serves f 128 (b + 176) t₁ (omega arith) (omega (arith, fuel)) (beside b n₁ (omega arith)) in
    let n₂ = n₁ - 152 in
    let (h₃, r₃, t₃) =
      frees f (b + 24) t₂ (ground arith) (omega arith) (omega (arith, fuel)) (frees_left b n₂) in
    let (h₄, r₄, t₄) =
      frees f (b + 176) t₃ (ground arith) (omega arith) (omega (arith, fuel)) (frees_right b n₂) in
    let n₄ = n₂ + 304 in
    let (h₅, r₅, t₅) =
      serves f 250 (b + 24) t₄ (omega arith) (omega (arith, fuel)) (joined b n₄ (omega arith)) in
    let (h₆, r₆, t₆) =
      frees f (b + 24) t₅ (ground arith) (omega arith) (omega (arith, fuel))
        (frees_joined b (n₄ - 280)) in
    let back : n₄ - 280 + 280 ≡ n = omega (arith, big) in
    let same : (b + 24 == b + 24) ≡ true = ground arith in
    (h₆, rw (r₁, r₂, r₃, r₄, r₅, r₆) (ap (λ x. some (x, h₆)) same), rw back at t₆)
