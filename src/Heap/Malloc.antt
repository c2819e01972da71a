-- ===== src/Heap/Malloc.antt =====
-- `kmalloc` on the memory is first fit on the list of blocks.
use barium.Prelude.{
  ℕ, zero, suc, ◌+◌, ◌-◌, ◌^◌, ◌≤◌, ◌<◌, ◌≡◌, ◌≢◌, refl, ◌∙◌, inl, inr, true, false, ◌&&◌, some,
  List, [], ◌∷◌, arith, ◌==◌, ltb, leb, if◌then◌else◌, length, Bool-cases,
}
use barium.Heap.{
  Block, Memory, Heap, write, heap_magic, split, take_block, malloc_loop, kmalloc, round_up, fits,
}
use barium.Heap.Layout.{Seg, seg, total, carve, alloc}
use barium.Heap.Chain.{link, header, Chain, IsHeap, Chain-frame}

module _ (n : ℕ) (m : Memory) (a : ℕ) (s : Seg) (r : List Seg) (here : m a ≡ header a s r)
    (lo : 4096 ≤ a) (hi : a + 24 + s.size < 2 ^ 64) (fit : n ≤ s.size) where
  -- The memory after a hit on a block that is large enough to be cut.
  take_block_cut :
      ltb (n + 40) s.size ≡ true
      → (x : ℕ)
      → (take_block m a n).1 x ≡ (
          if x == a
          then header a (seg n false) (seg (s.size - n - 24) true ∷ r)
          else if x == a + 24 + n
          then record {
            size = s.size - n - 24;
            next = link (a + 24 + s.size) r;
            free = 1;
            magic = heap_magic;
          }
          else m x)
  unfolding take_block split write
  take_block_cut big x = ground arith

  -- The memory after a hit on a block that is taken whole.
  take_block_whole :
      ltb (n + 40) s.size ≡ false
      → (x : ℕ) → (take_block m a n).1 x ≡ (if x == a then header a (seg s.size false) r else m x)
  unfolding take_block split write
  take_block_whole small x = ground arith

-- A hit cuts the block, takes it, and leaves the memory below it alone.
take_block-carve :
    (n : ℕ) {m : Memory} {a : ℕ} (s : Seg) (r : List Seg)
    → Chain m a (s ∷ r)
    → 4096 ≤ a
    → a + 24 + s.size < 2 ^ 64
    → n ≤ s.size
    → let (p, m') = take_block m a n in
      (p ≡ a + 24) × Chain m' a (carve n s r) × ((x : ℕ) → x < a → m' x ≡ m x)
unfolding carve
take_block-carve n {m} {a} s r c lo hi fit = elim (Bool-cases (ltb (n + 40) s.size)) [
  | inl big ↦
      let cut = take_block_cut n m a s r c.0 lo hi fit big in
      let e : a + 24 + n + 24 + (s.size - n - 24) ≡ a + 24 + s.size = ground arith in
      rw big (
        unfold take_block in omega arith,
        (
          ground (arith, cut a),
          (
            rw e (ground (arith, cut (a + 24 + n))),
            rw e (Chain-frame r (λ x h. ground (arith, cut x)) c.1),
          ),
        ),
        λ x h. ground (arith, cut x),
      )
  | inr small ↦
      let whole = take_block_whole n m a s r c.0 lo hi fit small in
      rw small (
        unfold take_block in omega arith,
        (ground (arith, whole a), Chain-frame r (λ x h. ground (arith, whole x)) c.1),
        λ x h. ground (arith, whole x),
      )
]

-- An allocation moves no byte out of the pool.
pub total-alloc : (n a : ℕ) (l : List Seg) → total (alloc n a l).1 ≡ total l
unfolding alloc carve total
total-alloc n a [] = refl
total-alloc n a (s ∷ r) = ground (arith, total-alloc n (a + 24 + s.size) r)

pub length-alloc : (n a : ℕ) (l : List Seg) → length (alloc n a l).1 ≤ length l + 1
unfolding alloc carve
length-alloc n a [] = omega arith
length-alloc n a (s ∷ r) = ground (arith, length-alloc n (a + 24 + s.size) r)

-- The test of the loop, on a header.
fits-eq :
    (n : ℕ) {b : Block} (a : ℕ) (s : Seg) (r : List Seg)
    → b ≡ header a s r
    → fits b n ≡ (s.free && leb n s.size)
unfolding fits
fits-eq n a s r e = ground arith

-- The list of blocks starts where it did.
link-alloc : (n a b : ℕ) (l : List Seg) → link a (alloc n b l).1 ≡ link a l
unfolding alloc carve
link-alloc n a b [] = refl
link-alloc n a b (s ∷ r) = ground arith

-- What the loop of `kmalloc` does from a block on.
malloc_loop-alloc :
    (f n : ℕ) (l : List Seg) {m : Memory} {a : ℕ}
    → Chain m a l
    → 4096 ≤ a
    → a + total l < 2 ^ 64
    → length l < f
    → (m' : Memory) × (malloc_loop f m n (link a l) ≡ some ((alloc n a l).0, m'))
      × Chain m' a (alloc n a l).1
      × ((x : ℕ) → x < a → m' x ≡ m x)
unfolding malloc_loop alloc total
malloc_loop-alloc zero n l c lo hi fuel = absurd (omega arith)
malloc_loop-alloc (suc f) n [] {m} c lo hi fuel = (m, refl, tt, λ x h. refl)
malloc_loop-alloc (suc f) n (s ∷ r) {m} {a} c lo hi fuel =
    elim (Bool-cases (s.free && leb n s.size)) [
      | inl hit ↦
          let taken = take_block-carve n s r c lo (omega arith) (ground arith) in
          rw hit
            ((take_block m a n).1, ground (arith, taken.0, fits-eq n a s r c.0), taken.1, taken.2)
      | inr miss ↦
          let (m', run, chain, same) =
            malloc_loop-alloc f n r c.1 (omega arith) (omega arith) (omega arith) in
          rw miss (
            m',
            ground (arith, run, fits-eq n a s r c.0),
            (
              same a (omega arith)
                  ∙ ground (arith, c.0, link-alloc n (a + 24 + s.size) (a + 24 + s.size) r),
              chain,
            ),
            λ x h. same x (omega arith),
          )
    ]

-- `kmalloc` on a heap gives what first fit gives on its blocks, with fuel for each block and one
-- more round: the loop ends, and the new memory holds the new blocks.
pub kmalloc-alloc :
    (f size : ℕ) {h : Heap} {l : List Seg}
    → IsHeap h l
    → size ≢ 0
    → length l < f
    → (h' : Heap) × (kmalloc f h size ≡ some ((alloc (round_up size) h.start l).0, h'))
      × IsHeap h' (alloc (round_up size) h.start l).1
      × (h'.start ≡ h.start)
unfolding kmalloc
kmalloc-alloc f size {h} {l} v ne fuel =
    let (m', run, chain, same) =
      malloc_loop-alloc f (round_up size) l v.chain v.above v.below fuel in
    (
      record h { memory = m' },
      ground (arith, run),
      record {
        started = ground (arith, link-alloc (round_up size) h.start h.start l);
        chain = chain;
        above = v.above;
        below = omega (arith, total-alloc (round_up size) h.start l);
      },
      refl,
    )
