-- ===== src/Heap/Contract.antt =====
-- The contract of `kmalloc` and `kfree`, on the memory that they work on.
use barium.Prelude.{
  ℕ, ◌+◌, ◌-◌, ◌^◌, ◌≤◌, ◌<◌, ◌≡◌, ◌≢◌, ◌∙◌, ◌⊎◌, inl, inr, true, false, none, some, List, ◌∷◌,
  arith, ◌==◌, if◌then◌else◌, length,
}
use barium.Heap.{Heap, round_up, kmalloc, kfree}
use barium.Heap.Layout.{Seg, seg, total, carve, alloc, mark, merge, payload, is_block}
use barium.Heap.Chain.{IsHeap}
use barium.Heap.Malloc.{kmalloc-alloc, total-alloc, length-alloc}
use barium.Heap.Free.{kfree-merge, total-mark, total-merge}
use barium.Heap.Payload.{
  NoRoom, Served, alloc-Served, is_block_of_payload, payload-mark, payload-merge,
}
use barium.Heap.Coalesced.{Coalesced, merge-Coalesced, alloc-Coalesced, merge-mark-alloc}

-- A size that does not wrap is rounded up to the next multiple of 8.
pub round_up_bounds :
    (size : ℕ) → size + 7 < 2 ^ 64 → (size ≤ round_up size) × (round_up size < size + 8)
unfolding round_up
round_up_bounds size h = omega arith

-- What a call of `kmalloc` promises of the blocks before and after it.
abbrev pub Answer : ℕ → ℕ → ℕ → List Seg → List Seg → Type 0
Answer size start p l l' =
    Served size start p l l' ⊎ ((p ≡ 0) × (l' ≡ l) × NoRoom (round_up size) l)

Served-mono : (n k : ℕ) {a p : ℕ} {l l' : List Seg} → n ≤ k → Served k a p l l' → Served n a p l l'
Served-mono n k h v = record {
  behind = v.behind;
  fresh = v.fresh;
  size = v.size;
  holds = v.holds;
  enough = omega (arith, v.enough);
  others = v.others;
}

-- On a heap, `kmalloc` of a size between 1 and 2^64 - 8 ends, with one round of its loop for each
-- block and one more, and leaves a heap at the same place, of the same total size. Either it returns
-- the payload of a block of at least that many bytes, which was not allocated before, and no other
-- allocated block changes; or it returns 0, changes no block, and no free block has room.
pub kmalloc-Answer :
    (f size : ℕ) {h : Heap} {l : List Seg}
    → IsHeap h l
    → size ≢ 0
    → size + 7 < 2 ^ 64
    → length l < f
    → (p : ℕ) × (h' : Heap) × (l' : List Seg) × (kmalloc f h size ≡ some (p, h'))
      × IsHeap h' l'
      × (h'.start ≡ h.start)
      × (total l' ≡ total l)
      × Answer size h.start p l l'
kmalloc-Answer f size {h} {l} v ne small fuel =
    let n = round_up size in
    let (h', run, v', start) = kmalloc-alloc f size v ne fuel in
    (
      (alloc n h.start l).0,
      h',
      (alloc n h.start l).1,
      run,
      v',
      start,
      total-alloc n h.start l,
      elim (alloc-Served n h.start l) [
        | inl s ↦ inl (Served-mono size n (round_up_bounds size small).0 s)
        | inr z ↦ inr z
      ],
    )

-- On a heap, `kfree` of the payload of an allocated block ends, with one round of its loop for each
-- block and one more, and leaves a heap at the same place, of the same total size, in which that
-- payload is not allocated, every other payload is as it was, and no two free blocks are neighbours.
pub kfree-frees :
    (f p k : ℕ) {h : Heap} {l : List Seg}
    → IsHeap h l
    → payload p h.start l ≡ some k
    → length l < f
    → (h' : Heap) × (l' : List Seg) × (kfree f h p ≡ some h')
      × IsHeap h' l'
      × (h'.start ≡ h.start)
      × (total l' ≡ total l)
      × Coalesced l'
      × ((q : ℕ) → payload q h.start l' ≡ (if q == p then none else payload q h.start l))
kfree-frees f p k {h} {l} v held fuel =
    let (h', run, v', start) = kfree-merge f p v (is_block_of_payload p h.start l k held) fuel in
    let marked = mark p h.start l in
    (
      h',
      merge marked,
      run,
      v',
      start,
      total-merge marked ∙ total-mark p h.start l,
      merge-Coalesced marked,
      λ q. payload-merge q h.start marked ∙ payload-mark q p h.start l,
    )

alloc-is_block :
    (n a : ℕ) (l : List Seg)
    → (alloc n a l).0 ≢ 0
    → is_block (alloc n a l).0 a (alloc n a l).1 ≡ true
alloc-is_block n a l found = elim (alloc-Served n a l) [
  | inl v ↦ is_block_of_payload (alloc n a l).0 a (alloc n a l).1 v.size v.holds
  | inr z ↦ absurd (found z.0)
]

-- In a heap without neighbouring free blocks, a `kmalloc` that succeeds keeps it so, and `kfree` of
-- what it returned brings the blocks back to what they were: sizes, places and which are free.
pub kfree-kmalloc :
    (f size : ℕ) {h h₁ : Heap} {l : List Seg} {p : ℕ}
    → IsHeap h l
    → Coalesced l
    → size ≢ 0
    → length l + 1 < f
    → kmalloc f h size ≡ some (p, h₁)
    → p ≢ 0
    → (l₁ : List Seg) × (h₂ : Heap) × IsHeap h₁ l₁
      × Coalesced l₁
      × (kfree f h₁ p ≡ some h₂)
      × IsHeap h₂ l
kfree-kmalloc f size {h} {h₁} {l} {p} v c ne fuel run found =
    let n = round_up size in
    let a = h.start in
    let (h', run', v', start) = kmalloc-alloc f size v ne (omega arith) in
    let same : (p ≡ (alloc n a l).0) × (h₁ ≡ h') = ground (arith, run, run') in
    let found' : (alloc n a l).0 ≢ 0 = ground (arith, same.0, found) in
    let at = alloc-is_block n a l found' in
    let (h₂, freed, v₂, start₂) =
      kfree-merge f (alloc n a l).0 v' (rw start at) (omega (arith, length-alloc n a l)) in
    let back = merge-mark-alloc n a l c found' in
    rw same.0
      (rw same.1 ((alloc n a l).1, h₂, v', alloc-Coalesced n a l c, freed, rw (start, back) at v₂))

alloc_first :
    (a : ℕ) (s : Seg) (r : List Seg)
    → s.free ≡ true
    → 40 < s.size
    → alloc 0 a (s ∷ r) ≡ (a + 24, seg 0 false ∷ seg (s.size - 0 - 24) true ∷ r)
unfolding alloc carve
alloc_first a s r free big = ground arith

-- `kmalloc` of a size within 7 of 2^64 rounds it up to 0: from a heap whose first block is free and
-- larger than 40 bytes it returns that block's payload, cut to no bytes at all.
pub kmalloc_wraps :
    (f size : ℕ) {h : Heap} {s : Seg} {r : List Seg}
    → IsHeap h (s ∷ r)
    → s.free ≡ true
    → 40 < s.size
    → 2 ^ 64 ≤ size + 7
    → size < 2 ^ 64
    → length (s ∷ r) < f
    → (h' : Heap) × (l' : List Seg) × (kmalloc f h size ≡ some (h.start + 24, h'))
      × IsHeap h' l'
      × (payload (h.start + 24) h.start l' ≡ some 0)
kmalloc_wraps f size {h} {s} {r} v free big wrap small fuel =
    let zero_bytes : round_up size ≡ 0 = unfold round_up in omega arith in
    let (h', run, v', start) = kmalloc-alloc f size v (omega arith) fuel in
    let first = alloc_first h.start s r free big in
    (
      h',
      (alloc 0 h.start (s ∷ r)).1,
      run ∙ ground (arith, zero_bytes, first),
      rw zero_bytes at v',
      rw first (unfold payload in ground arith),
    )
