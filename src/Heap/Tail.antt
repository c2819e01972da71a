-- ===== src/Heap/Tail.antt =====
-- A heap behind a run of allocated blocks, which no call changes.
use barium.Prelude.{
  ℕ, ◌+◌, ◌<◌, ◌≡◌, ◌≢◌, refl, ap, true, false, some, List, [], ◌∷◌, ◌++◌, ◌&&◌, arith, length,
  length-append, All,
}
use barium.Heap.{Heap, round_up, kmalloc, kfree}
use barium.Heap.Layout.{Seg, total, alloc, mark, merge_from, merge, is_block}
use barium.Heap.Chain.{IsHeap}
use barium.Heap.Malloc.{kmalloc-alloc}
use barium.Heap.Free.{kfree-merge}

abbrev pub IsUsed : List Seg → Type 0
IsUsed = All (λ s. s.free ≡ false)

alloc-append :
    (n a : ℕ) (u r : List Seg)
    → IsUsed u
    → alloc n a (u ++ r) ≡ ((alloc n (a + total u) r).0, u ++ (alloc n (a + total u) r).1)
unfolding alloc total
alloc-append n a [] r h = let e : a + 0 ≡ a = omega arith in rw e refl
alloc-append n a (s ∷ u) r h =
    let e : a + (24 + s.size + total u) ≡ a + 24 + s.size + total u = omega arith in
    rw (h.0, alloc-append n (a + 24 + s.size) u r h.1, e) refl

mark-append :
    (p a : ℕ) (u r : List Seg) → a + total u < p → mark p a (u ++ r) ≡ u ++ mark p (a + total u) r
unfolding mark total
mark-append p a [] r h = let e : a + 0 ≡ a = omega arith in rw e refl
mark-append p a (s ∷ u) r h =
    let e : a + (24 + s.size + total u) ≡ a + 24 + s.size + total u = omega arith in
    rw e (ground (arith, mark-append p (a + 24 + s.size) u r (omega (arith, h))))

is_block-append :
    (p a : ℕ) (u r : List Seg) → is_block p (a + total u) r ≡ true → is_block p a (u ++ r) ≡ true
unfolding is_block total
is_block-append p a [] r h = let e : a + 0 ≡ a = omega arith in rw e at h
is_block-append p a (s ∷ u) r h =
    let e : a + (24 + s.size + total u) ≡ a + 24 + s.size + total u = omega arith in
    ground (arith, is_block-append p (a + 24 + s.size) u r (rw e at h))

merge-append : (u r : List Seg) → IsUsed u → merge (u ++ r) ≡ u ++ merge r
unfolding merge merge_from
merge-append [] r h = refl
merge-append (s ∷ []) [] h = refl
merge-append (s ∷ []) (t ∷ r) h =
    let apart : (s.free && t.free) ≡ false = ground (arith, h.0) in rw apart refl
merge-append (s ∷ (t ∷ u)) r h =
    let apart : (s.free && t.free) ≡ false = ground (arith, h.0) in
    rw apart (ap (λ l. s ∷ l) (merge-append (t ∷ u) r h.1))

-- The heap's blocks are `u`, all of them allocated, and from the address `b` on `r`.
pub record Ends (u r : List Seg) (b : ℕ) (h : Heap) : Type 0 where
  pub valid : IsHeap h (u ++ r)
  pub used : IsUsed u
  pub at : b ≡ h.start + total u

pub kmalloc-Ends :
    (f size : ℕ) {u r : List Seg} {b : ℕ} {h : Heap}
    → Ends u r b h
    → size ≢ 0
    → length u + length r < f
    → (h' : Heap) × (kmalloc f h size ≡ some ((alloc (round_up size) b r).0, h'))
      × Ends u (alloc (round_up size) b r).1 b h'
kmalloc-Ends f size {u} {r} {b} {h} t ne fuel =
    let (h', run, v, start) =
      kmalloc-alloc f size t.valid ne (omega (arith, length-append u r, fuel)) in
    let e = alloc-append (round_up size) h.start u r t.used in
    (
      h',
      rw (t.at) (rw e at run),
      record { valid = rw (t.at) (rw e at v); used = t.used; at = rw start (t.at) },
    )

pub kfree-Ends :
    (f p : ℕ) {u r : List Seg} {b : ℕ} {h : Heap}
    → Ends u r b h
    → is_block p b r ≡ true
    → b < p
    → length u + length r < f
    → (h' : Heap) × (kfree f h p ≡ some h') × Ends u (merge (mark p b r)) b h'
kfree-Ends f p {u} {r} {b} {h} t here lt fuel =
    let there = is_block-append p h.start u r (rw t.at at here) in
    let (h', run, v, start) =
      kfree-merge f p t.valid there (omega (arith, length-append u r, fuel)) in
    let e = mark-append p h.start u r (omega (arith, t.at, lt)) in
    let e' = merge-append u (mark p (h.start + total u) r) t.used in
    (h', run, record { valid = rw (t.at) (rw (e, e') at v); used = t.used; at = rw start (t.at) })
