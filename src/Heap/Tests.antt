-- ===== src/Heap/Tests.antt =====
-- The theorems of the heap at a fresh pool.
use barium.Prelude.{
  ℕ, ◌+◌, ◌*◌, ◌-◌, ◌^◌, ◌≡◌, refl, true, false, Option, none, some, List, [], ◌∷◌, arith,
  if◌then◌else◌, ◌==◌,
}
use barium.Heap.{
  Memory, Heap, heap_init, kmalloc, kfree, malloc_loop, write, take_block, split, fits, round_up,
}
use barium.Heap.Layout.{Seg, seg, total, payload}
use barium.Heap.Chain.{IsHeap, heap_init-IsHeap}
use barium.Heap.Contract.{Answer, kmalloc-Answer, kfree-frees, kfree-kmalloc, kmalloc_wraps}
use barium.Heap.Coalesced.{Coalesced}

abbrev zeroed : Memory
zeroed a = record { size = 0; next = 0; free = 0; magic = 0 }

abbrev pool : ℕ
pool = 0x100_0000

abbrev fresh : Heap
fresh = heap_init zeroed pool

abbrev whole : List Seg
whole = seg (1024 * 4096 - 24) true ∷ []

fresh-IsHeap : IsHeap fresh whole
fresh-IsHeap = heap_init-IsHeap zeroed pool (omega arith) (omega arith)

-- An allocation inside a run; a failed one gives 0 and the heap unchanged.
abbrev served : Option (ℕ × Heap) → ℕ × Heap
served none = (0, fresh)
served (some r) = r

kmalloc-Answer_example :
    (p : ℕ) × (h' : Heap) × (l' : List Seg) × (kmalloc 2 fresh 100 ≡ some (p, h'))
    × IsHeap h' l'
    × (h'.start ≡ fresh.start)
    × (total l' ≡ total whole)
    × Answer 100 fresh.start p whole l'
kmalloc-Answer_example = kmalloc-Answer 2 100 fresh-IsHeap (omega arith) (omega arith) (omega arith)

kmalloc_wraps_example :
    (h' : Heap) × (l' : List Seg) × (kmalloc 2 fresh (2 ^ 64 - 1) ≡ some (fresh.start + 24, h'))
    × IsHeap h' l'
    × (payload (fresh.start + 24) fresh.start l' ≡ some 0)
kmalloc_wraps_example =
    kmalloc_wraps 2 (2 ^ 64 - 1) fresh-IsHeap refl (omega arith) (omega arith) (omega arith)
      (omega arith)

-- One block of 104 bytes taken at the start of the pool.
abbrev one : Heap
one = (served (kmalloc 3 fresh 100)).1

kfree-kmalloc_example :
    (l₁ : List Seg) × (h₂ : Heap) × IsHeap one l₁
    × Coalesced l₁
    × (kfree 3 one (pool + 24) ≡ some h₂)
    × IsHeap h₂ whole
unfolding heap_init kmalloc malloc_loop write take_block split fits round_up
kfree-kmalloc_example =
    kfree-kmalloc 3 100 fresh-IsHeap (refl, tt) (omega arith) (omega arith) refl (omega arith)

abbrev taken : List Seg
taken = seg 104 false ∷ seg (1024 * 4096 - 152) true ∷ []

one-IsHeap : IsHeap one taken
unfolding heap_init kmalloc malloc_loop write take_block split fits round_up total
one-IsHeap = record {
  started = refl;
  chain = (refl, (refl, tt));
  above = omega arith;
  below = omega arith;
}

kfree-frees_example :
    (h' : Heap) × (l' : List Seg) × (kfree 3 one (pool + 24) ≡ some h')
    × IsHeap h' l'
    × (h'.start ≡ one.start)
    × (total l' ≡ total taken)
    × Coalesced l'
    × ((q : ℕ)
        → payload q one.start l' ≡ (if q == pool + 24 then none else payload q one.start taken))
unfolding payload heap_init kmalloc malloc_loop write take_block split fits round_up
kfree-frees_example = kfree-frees 3 (pool + 24) 104 one-IsHeap refl (omega arith)
