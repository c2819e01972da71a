-- ===== src/Heap/Free.antt =====
-- `kfree` on the memory marks a block of the list free and joins the runs of free blocks.
use barium.Prelude.{
  ℕ, zero, suc, ◌+◌, ◌-◌, ◌^◌, ◌≤◌, ◌<◌, ◌≡◌, ◌≢◌, refl, ap, ◌∙◌, inl, inr, true, ◌&&◌, some, List,
  [], ◌∷◌, arith, ◌==◌, if◌then◌else◌, length, Bool-cases,
}
use barium.Heap.{
  Block, Memory, Heap, sub64, write, heap_magic, mergeable, absorb, merge_loop, kfree,
}
use barium.Heap.Layout.{Seg, seg, total, mark, merge_from, merge, is_block}
use barium.Heap.Chain.{link, flag, Chain, IsHeap, Chain-frame}

-- The list still starts with a block.
link-merge_from : (a : ℕ) (s : Seg) (r : List Seg) → link a (merge_from s r) ≡ a
unfolding merge_from
link-merge_from a s [] = refl
link-merge_from a s (t ∷ r) =
    ground
      (arith, link-merge_from a (if s.free && t.free then seg (s.size + 24 + t.size) true else t) r)

link-mark : (p a b : ℕ) (l : List Seg) → link a (mark p b l) ≡ link a l
unfolding mark
link-mark p a b [] = refl
link-mark p a b (s ∷ r) = ground arith

pub total-merge_from : (s : Seg) (r : List Seg) → total (merge_from s r) ≡ total (s ∷ r)
unfolding merge_from total
total-merge_from s [] = refl
total-merge_from s (t ∷ r) =
    ground
      (arith, total-merge_from (if s.free && t.free then seg (s.size + 24 + t.size) true else t) r)

module _ (m : Memory) (a : ℕ) (s t : Seg) (r : List Seg) (c : Chain m a (s ∷ t ∷ r))
    (hi : a + 24 + s.size + 24 + t.size < 2 ^ 64) where
  absorb_joined :
      (x : ℕ)
      → absorb m a x ≡ (
          if x == a
          then record {
            size = s.size + 24 + t.size;
            next = link (a + 24 + s.size + 24 + t.size) r;
            free = flag s.free;
            magic = heap_magic;
          }
          else m x)
  unfolding absorb write
  absorb_joined x = rw (c.0, c.1.0) (ground arith)

  -- The joining of two neighbours, the first of them free, on the memory.
  absorb-Chain :
      s.free ≡ true
      → Chain (absorb m a) a (seg (s.size + 24 + t.size) true ∷ r)
        × ((x : ℕ) → x < a → absorb m a x ≡ m x)
  absorb-Chain free =
      let e : a + 24 + (s.size + 24 + t.size) ≡ a + 24 + s.size + 24 + t.size = omega arith in
      (
        rw e (
          ground (arith, absorb_joined a),
          Chain-frame r (λ x h. ground (arith, absorb_joined x)) c.1.1,
        ),
        λ x h. ground (arith, absorb_joined x),
      )

  -- The test of the loop, at a block with a successor.
  mergeable-eq : 0 < a → mergeable m a ≡ (s.free && t.free)
  unfolding mergeable
  mergeable-eq h = rw (c.0, c.1.0) (ground arith)

-- The loop of `kfree` from a block on: it ends, and joins the runs of free blocks.
merge_loop-merge_from :
    (f : ℕ) (s : Seg) (r : List Seg) {m : Memory} {a : ℕ}
    → Chain m a (s ∷ r)
    → 4096 ≤ a
    → a + total (s ∷ r) < 2 ^ 64
    → length (s ∷ r) < f
    → (m' : Memory) × (merge_loop f m a ≡ some m')
      × Chain m' a (merge_from s r)
      × ((x : ℕ) → x < a → m' x ≡ m x)
unfolding merge_loop merge_from total
merge_loop-merge_from zero s r c lo hi fuel = absurd (omega arith)
merge_loop-merge_from (suc zero) s r c lo hi fuel = absurd (omega arith)
merge_loop-merge_from (suc (suc f)) s [] {m} {a} c lo hi fuel =
    (m, unfold mergeable in rw c.0 (ground arith), c, λ x h. refl)
merge_loop-merge_from (suc (suc f)) s (t ∷ r) {m} {a} c lo hi fuel =
    elim (Bool-cases (s.free && t.free)) [
      | inl both ↦
          let (chain, same) = absorb-Chain m a s t r c (omega arith) (ground arith) in
          let (m', run, chain', same') =
            merge_loop-merge_from (suc f) (seg (s.size + 24 + t.size) true) r chain lo (omega arith)
              (omega arith) in
          rw both (
            m',
            ground (arith, run, mergeable-eq m a s t r c (omega arith) (omega arith)),
            chain',
            λ x h. same' x h ∙ same x h,
          )
      | inr apart ↦
          let (m', run, chain', same') =
            merge_loop-merge_from (suc f) t r c.1 (omega arith) (omega arith) (omega arith) in
          rw apart (
            m',
            ground (arith, run, c.0, mergeable-eq m a s t r c (omega arith) (omega arith)),
            (
              same' a (omega arith) ∙ ground (arith, c.0, link-merge_from (a + 24 + s.size) t r),
              chain',
            ),
            λ x h. same' x (omega arith),
          )
    ]

-- A block's payload stands behind its header.
is_block-le : (p a : ℕ) (l : List Seg) → is_block p a l ≡ true → a + 24 ≤ p
unfolding is_block
is_block-le p a [] h = cc
is_block-le p a (s ∷ r) h = ground (arith, is_block-le p (a + 24 + s.size) r)

write_self : (m : Memory) (a : ℕ) (b : Block) → write m a b a ≡ b
unfolding write
write_self m a b = ground arith

write_other : (m : Memory) {a x : ℕ} (b : Block) → x ≢ a → write m a b x ≡ m x
unfolding write
write_other m b ne = ground arith

-- The first writes of `kfree` mark the block.
mark-Chain :
    (p : ℕ) (l : List Seg) (m : Memory) (a : ℕ)
    → Chain m a l
    → is_block p a l ≡ true
    → ((m (p - 24)).magic ≡ heap_magic)
      × Chain (write m (p - 24) (record (m (p - 24)) { free = 1 })) a (mark p a l)
unfolding mark is_block
mark-Chain p [] m a c h = cc
mark-Chain p (s ∷ r) m a c h = elim (Bool-cases (p == a + 24)) [
  | inl here ↦
      let e : p - 24 ≡ a = ground arith in
      rw (here, e)
        (
          ap (λ (b : Block). b.magic) c.0,
          (write_self m a _ ∙ rw c.0, Chain-frame r (λ x h. write_other m _ (omega arith)) c.1),
        )
  | inr later ↦
      let k : is_block p (a + 24 + s.size) r ≡ true = ground arith in
      let (magic, chain) = mark-Chain p r m (a + 24 + s.size) c.1 k in
      let le = is_block-le p (a + 24 + s.size) r k in
      rw later (
        magic,
        (
          write_other m _ (omega arith)
              ∙ c.0
              ∙ rw (link-mark p (a + 24 + s.size) (a + 24 + s.size) r),
          chain,
        ),
      )
]

pub total-mark : (p a : ℕ) (l : List Seg) → total (mark p a l) ≡ total l
unfolding mark total
total-mark p a [] = refl
total-mark p a (s ∷ r) = ground (arith, total-mark p (a + 24 + s.size) r)

is_block-le-total : (p a : ℕ) (l : List Seg) → is_block p a l ≡ true → p ≤ a + total l
unfolding is_block total
is_block-le-total p a [] h = cc
is_block-le-total p a (s ∷ r) h = ground (arith, is_block-le-total p (a + 24 + s.size) r)

length-mark : (p a : ℕ) (l : List Seg) → length (mark p a l) ≡ length l
unfolding mark
length-mark p a [] = refl
length-mark p a (s ∷ r) = ground (arith, length-mark p (a + 24 + s.size) r)

link-merge : (a : ℕ) (l : List Seg) → link a (merge l) ≡ link a l
unfolding merge
link-merge a [] = refl
link-merge a (s ∷ r) = link-merge_from a s r

pub total-merge : (l : List Seg) → total (merge l) ≡ total l
unfolding merge
total-merge [] = refl
total-merge (s ∷ r) = total-merge_from s r

-- The whole loop of `kfree`.
merge_loop-merge :
    (f : ℕ) (l : List Seg) (m : Memory) (a : ℕ)
    → Chain m a l
    → 4096 ≤ a
    → a + total l < 2 ^ 64
    → length l < f
    → (m' : Memory) × (merge_loop f m (link a l) ≡ some m') × Chain m' a (merge l)
unfolding merge_loop merge
merge_loop-merge zero l m a c lo hi fuel = absurd (omega arith)
merge_loop-merge (suc f) [] m a c lo hi fuel = (m, refl, tt)
merge_loop-merge (suc f) (s ∷ r) m a c lo hi fuel =
    let (m', run, chain, same) = merge_loop-merge_from (suc f) s r c lo hi fuel in (m', run, chain)

-- `kfree` on the payload of a block of a heap gives the list with that block free and the runs of
-- free blocks joined, with fuel for each block and one more round: the loop ends.
pub kfree-merge :
    (f p : ℕ) {h : Heap} {l : List Seg}
    → IsHeap h l
    → is_block p h.start l ≡ true
    → length l < f
    → (h' : Heap) × (kfree f h p ≡ some h')
      × IsHeap h' (merge (mark p h.start l))
      × (h'.start ≡ h.start)
unfolding kfree
kfree-merge f p {h} {l} v at fuel =
    let marked = mark-Chain p l h.memory h.start v.chain at in
    let start_le = is_block-le p h.start l at in
    let end_le = is_block-le-total p h.start l at in
    let e : sub64 p 24 ≡ p - 24 = omega (arith, v.below, v.above) in
    let (m', run, chain) =
      merge_loop-merge f (mark p h.start l) _ h.start marked.1 v.above
        (omega (arith, total-mark p h.start l, v.below)) (omega (arith, length-mark p h.start l)) in
    let whole = total-merge (mark p h.start l) in
    let marked_total = total-mark p h.start l in
    let linked = link-merge h.start (mark p h.start l) in
    let marked_link = link-mark p h.start h.start l in
    (
      record h { memory = m' },
      rw e (ground (arith, marked.0, run)),
      record {
        started = ground arith;
        chain = chain;
        above = v.above;
        below = omega (arith, v.below);
      },
      refl,
    )
