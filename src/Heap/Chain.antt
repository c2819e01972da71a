-- ===== src/Heap/Chain.antt =====
-- What it means for a memory to hold a list of blocks.
use barium.Prelude.{
  ℕ, ◌+◌, ◌*◌, ◌-◌, ◌^◌, ◌≤◌, ◌<◌, ◌≡◌, refl, ◌∙◌, Bool, true, false, List, [], ◌∷◌, arith,
}
use barium.Heap.{Block, Memory, Heap, write, heap_magic, heap_init}
use barium.Heap.Layout.{Seg, seg, total}

-- The address of a block, or 0 behind the last one.
abbrev pub link : ℕ → List Seg → ℕ
link a [] = 0
link a (s ∷ r) = a

abbrev pub flag : Bool → ℕ
flag true = 1
flag false = 0

-- The header of a block that stands at `a`, with the blocks `r` behind it.
abbrev pub header : ℕ → Seg → List Seg → Block
header a s r = record {
  size = s.size;
  next = link (a + 24 + s.size) r;
  free = flag s.free;
  magic = heap_magic;
}

-- From `a` on the memory holds the headers of the blocks, one behind the other.
abbrev pub Chain : Memory → ℕ → List Seg → Type 0
Chain m a [] = Unit
Chain m a (s ∷ r) = (m a ≡ header a s r) × Chain m (a + 24 + s.size) r

-- A heap whose blocks are `l`, inside the address space.
pub record IsHeap (h : Heap) (l : List Seg) : Type 0 where
  pub started : h.start ≡ link h.start l
  pub chain : Chain h.memory h.start l
  pub above : 4096 ≤ h.start
  pub below : h.start + total l < 2 ^ 64

-- A chain depends on the memory from its start on alone.
pub Chain-frame :
    (l : List Seg) {m m' : Memory} {a : ℕ}
    → ((x : ℕ) → a ≤ x → m' x ≡ m x)
    → Chain m a l
    → Chain m' a l
Chain-frame [] same c = tt
Chain-frame (s ∷ r) {a = a} same c =
    (same a (omega arith) ∙ c.0, Chain-frame r (λ x h. same x (omega arith)) c.1)

-- The pool starts as one free block.
pub heap_init-IsHeap :
    (m : Memory) (pool : ℕ)
    → 4096 ≤ pool
    → pool + 1024 * 4096 < 2 ^ 64
    → IsHeap (heap_init m pool) (seg (1024 * 4096 - 24) true ∷ [])
unfolding heap_init write total
heap_init-IsHeap m pool h k = record {
  started = refl;
  chain = (ground arith, tt);
  above = h;
  below = omega arith;
}
