-- ===== src/Shell/HeapTest/Stress.antt =====
-- The third stage of `heaptest`, and the whole of it.
use barium.Prelude.{
  ℕ, zero, suc, ◌+◌, ◌-◌, ◌*◌, ◌≤◌, ◌<◌, ◌≡◌, refl, ap, ◌∙◌, true, false, some, List, [], ◌∷◌, ◌++◌,
  arith, length, length-append, All-append, replicate, ◌==◌,
}
use barium.Heap.{Heap, round_up}
use barium.Heap.Layout.{Seg, total, carve, alloc, mark, merge_from, merge, is_block}
use barium.Heap.Tail.{IsUsed, Ends}
use barium.Vmm.{Words, write_word}
use barium.Shell.HeapTest.{heaptest, lines, fill, free_all, intact, stamp}
use barium.Shell.HeapTest.Stages.{used, unused, serves, frees, reclaims_hole, coalesces_both}

append-cons : (u : List Seg) (x : Seg) (r : List Seg) → u ++ (x ∷ r) ≡ (u ++ (x ∷ [])) ++ r
append-cons [] x r = refl
append-cons (y ∷ u) x r = ap (λ l. y ∷ l) (append-cons u x r)

total_snoc : (u : List Seg) (n : ℕ) → total (u ++ (used n ∷ [])) ≡ total u + 24 + n
unfolding total
total_snoc [] n = omega arith
total_snoc (y ∷ u) n = omega (arith, total_snoc u n)

-- An allocated block at the start of the tail belongs to the blocks before it.
Ends-push :
    (u r : List Seg) (n b : ℕ) (h : Heap)
    → Ends u (used n ∷ r) b h
    → Ends (u ++ (used n ∷ [])) r (b + 24 + n) h
Ends-push u r n b h t = record {
  valid = rw⁻¹ (append-cons u (used n) r) t.valid;
  used = All-append (λ s. s.free ≡ false) u (used n ∷ []) t.used (refl, tt);
  at = omega (arith, t.at, total_snoc u n);
}

Ends-pull :
    (u r : List Seg) (n b : ℕ) (h : Heap)
    → IsUsed u
    → Ends (u ++ (used n ∷ [])) r (b + 24 + n) h
    → Ends u (used n ∷ r) b h
Ends-pull u r n b h all_used t = record {
  valid = rw (append-cons u (used n) r) t.valid;
  used = all_used;
  at = omega (arith, t.at, total_snoc u n);
}

-- Where the blocks of the test have their payloads, from the address `b` on.
pointers : ℕ → ℕ → List ℕ
pointers zero b = []
pointers (suc n) b = (b + 24) ∷ pointers n (b + 56)

stamped : (n i b : ℕ) → Words → Words
stamped zero i b w = w
stamped (suc n) i b w = stamped n (i + 1) (b + 56) (write_word w (b + 24) (stamp i))

stamped_below : (n i b x : ℕ) (w : Words) → x < b + 24 → stamped n i b w x ≡ w x
unfolding stamped
stamped_below zero i b x w h = refl
stamped_below (suc n) i b x w h =
    let later =
      stamped_below n (i + 1) (b + 56) x (write_word w (b + 24) (stamp i)) (omega (arith, h)) in
    later ∙ ground (arith, h)

intact-stamped : (n i b : ℕ) (w : Words) → intact i (pointers n b) (stamped n i b w) ≡ true
unfolding intact pointers stamped
intact-stamped zero i b w = refl
intact-stamped (suc n) i b w =
    let w' = write_word w (b + 24) (stamp i) in
    let kept = stamped_below n (i + 1) (b + 56) (b + 24) w' (omega arith) in
    let here : (b + 24 == b + 24) ≡ true = ground arith in
    let same : (stamp i == stamp i) ≡ true = ground arith in
    rw (kept, here, same) (intact-stamped n (i + 1) (b + 56) w')

-- The tail with `k` blocks of the test and then a free one.
abbrev blocks : (k r : ℕ) → List Seg
blocks k r = replicate k (used 32) ++ (unused r ∷ [])

length-blocks : (k r : ℕ) → length (blocks k r) ≡ k + 1
length-blocks zero r = refl
length-blocks (suc k) r = omega (arith, length-blocks k r)

alloc_small :
    (b m : ℕ) → 72 < m → alloc 32 b (unused m ∷ []) ≡ (b + 24, used 32 ∷ unused (m - 56) ∷ [])
unfolding alloc carve
alloc_small b m h = ground arith

fills :
    (f n i m b : ℕ) (u : List Seg) (h : Heap) (w : Words)
    → Ends u (unused m ∷ []) b h
    → n * 56 + 16 < m
    → length u + n + 2 < f
    → (h' : Heap) × (fill f n i h w ≡ some (pointers n b, h', stamped n i b w))
      × Ends u (blocks n (m - n * 56)) b h'
unfolding fill pointers stamped round_up
fills f zero i m b u h w t big fuel = let e : m - 0 ≡ m = omega arith in (h, refl, rw e t)
fills f (suc n) i m b u h w t big fuel =
    let (h₁, r₁, t₁) =
      serves f 32 (b + 24) t (omega arith) (omega (arith, fuel))
        (alloc_small b m (omega (arith, big))) in
    let w' = write_word w (b + 24) (stamp i) in
    let longer = length-append u (used 32 ∷ []) in
    let e : b + 24 + 32 ≡ b + 56 = omega arith in
    let pushed = Ends-push u (unused (m - 56) ∷ []) 32 b h₁ t₁ in
    let (h', r, t') =
      fills f n (i + 1) (m - 56) (b + 56) (u ++ (used 32 ∷ [])) h₁ w' (rw e at pushed)
        (omega (arith, big)) (omega (arith, fuel, longer)) in
    let valid : (b + 24 == 0) ≡ false = ground arith in
    let size : m - 56 - n * 56 ≡ m - suc n * 56 = omega arith in
    let t'' : Ends u (used 32 ∷ blocks n (m - 56 - n * 56)) b h' =
      Ends-pull u (blocks n (m - 56 - n * 56)) 32 b h' t.used (rw e t') in
    (h', rw (r₁, valid, r) refl, rw size at t'')

merge_from-blocks : (k r : ℕ) → merge_from (used 32) (blocks k r) ≡ used 32 ∷ blocks k r
unfolding merge_from
merge_from-blocks zero r = refl
merge_from-blocks (suc k) r = ap (λ l. used 32 ∷ l) (merge_from-blocks k r)

-- The tail while the blocks are given back: the free space before them, and `k` blocks to go.
rest : (m k r : ℕ) → List Seg
rest m zero r = unused (m + 24 + r) ∷ []
rest m (suc k) r = unused m ∷ blocks (suc k) r

merge_from-rest : (m k r : ℕ) → merge_from (unused m) (blocks k r) ≡ rest m k r
unfolding merge_from rest
merge_from-rest m zero r = refl
merge_from-rest m (suc k) r = ap (λ l. unused m ∷ l) (merge_from-blocks k r)

frees_one : (b m k r : ℕ) → merge (mark (b + m + 48) b (rest m (suc k) r)) ≡ rest (m + 56) k r
unfolding merge merge_from mark rest
frees_one b m k r =
    let not_first : (b + m + 48 == b + 24) ≡ false = ground arith in
    let next : (b + m + 48 == b + 24 + m + 24) ≡ true = ground arith in
    let size : m + 24 + 32 ≡ m + 56 = omega arith in
    rw (not_first, next, size) (merge_from-rest (m + 56) k r)

frees_head : (b k r : ℕ) → merge (mark (b + 24) b (blocks (suc k) r)) ≡ rest 32 k r
unfolding merge mark
frees_head b k r =
    let first : (b + 24 == b + 24) ≡ true = ground arith in rw first (merge_from-rest 32 k r)

length-rest : (m k r : ℕ) → length (rest m k r) ≤ k + 2
unfolding rest
length-rest m zero r = omega arith
length-rest m (suc k) r = omega (arith, length-blocks (suc k) r)

is_block-rest : (b m k r : ℕ) → is_block (b + m + 48) b (rest m (suc k) r) ≡ true
unfolding is_block rest
is_block-rest b m k r = ground arith

gives_back :
    (f k m r b : ℕ) (u : List Seg) (h : Heap)
    → Ends u (rest m k r) b h
    → length u + k + 2 < f
    → (h' : Heap) × (free_all f (pointers k (b + m + 24)) h ≡ some h')
      × Ends u (unused (m + k * 56 + 24 + r) ∷ []) b h'
unfolding free_all pointers rest
gives_back f zero m r b u h t fuel =
    let e : m + 0 + 24 + r ≡ m + 24 + r = omega arith in (h, refl, rw e t)
gives_back f (suc k) m r b u h t fuel =
    let (h₁, r₁, t₁) =
      frees f (b + m + 48) t (is_block-rest b m k r) (omega arith)
        (omega (arith, fuel, length-rest m (suc k) r)) (frees_one b m k r) in
    let (h', r', t') = gives_back f k (m + 56) r b u h₁ t₁ (omega (arith, fuel)) in
    let here : b + m + 24 + 24 ≡ b + m + 48 = omega arith in
    let next : b + m + 24 + 56 ≡ b + (m + 56) + 24 = omega arith in
    let size : m + 56 + k * 56 + 24 + r ≡ m + suc k * 56 + 24 + r = omega arith in
    (h', rw (here, next, r₁) r', rw size at t')

gives_all :
    (f k r b : ℕ) (u : List Seg) (h : Heap)
    → Ends u (blocks (suc k) r) b h
    → length u + k + 3 < f
    → (h' : Heap) × (free_all f (pointers (suc k) b) h ≡ some h')
      × Ends u (unused (32 + k * 56 + 24 + r) ∷ []) b h'
unfolding free_all pointers is_block
gives_all f k r b u h t fuel =
    let (h₁, r₁, t₁) =
      frees f (b + 24) t (ground arith) (omega arith) (omega (arith, fuel, length-blocks (suc k) r))
        (frees_head b k r) in
    let (h', r', t') = gives_back f k 32 r b u h₁ t₁ (omega (arith, fuel)) in
    let next : b + 56 ≡ b + 32 + 24 = omega arith in (h', rw (next, r₁) r', t')

-- On a heap whose only free block is its last, of at least 4096 bytes, `heaptest` ends, when each loop
-- has a round for each block and 70 more; it prints that the hole was taken again, that the two blocks
-- were joined and that the words it wrote were intact; and it leaves the blocks of the heap as they were.
pub heaptest_restores :
    (f n b : ℕ) (u : List Seg) (h : Heap) (w : Words)
    → Ends u (unused n ∷ []) b h
    → 4096 ≤ n
    → length u + 70 < f
    → (h' : Heap) × (w' : Words) × (heaptest f h w ≡ some (lines true true true, h', w'))
      × Ends u (unused n ∷ []) b h'
unfolding heaptest
heaptest_restores f n b u h w t big fuel =
    let (h₁, r₁, t₁) = reclaims_hole f n b u h t (omega arith) (omega (arith, fuel)) in
    let (h₂, r₂, t₂) = coalesces_both f n b u h₁ t₁ (omega arith) (omega (arith, fuel)) in
    let (h₃, r₃, t₃) = fills f 64 0 n b u h₂ w t₂ (omega arith) (omega (arith, fuel)) in
    let (h₄, r₄, t₄) = gives_all f 63 (n - 3584) b u h₃ t₃ (omega (arith, fuel)) in
    let size : 32 + 63 * 56 + 24 + (n - 3584) ≡ n = omega (arith, big) in
    let ok = intact-stamped 64 0 b w in
    (
      h₄,
      stamped 64 0 b w,
      rw (r₁, r₂, r₃, r₄) (ap (λ x. some (lines true true x, h₄, stamped 64 0 b w)) ok),
      rw size at t₄,
    )
