-- ===== src/Shell/HeapTest.antt =====
-- `heaptest` of src/kernel/shell.c over the heap of Heap.antt. The words that it writes into its
-- blocks are kept by address, apart from the headers. `none` is a loop that ran out of rounds, or a
-- write through the null pointer.
pub mod Stages
pub mod Stress
mod Tests
use Prim.Native.Nat.{bit_xor}
use barium.Prelude.{
  ℕ, zero, suc, ◌+◌, Bool, true, false, Option, none, some, List, [], ◌∷◌, ◌==◌, if◌then◌else◌,
  ◌>>=◌,
}
use barium.Heap.{Heap, kmalloc, kfree}
use barium.Vmm.{Words, write_word}

-- The lines that it prints, by their words.
pub data Line : Type 0 where
  testing_heap fragmentation free_b hole_reclaim_ok hole_reclaim_failed coalescing freeing
        coalesce_ok coalesce_failed stress works heap_works :
      Line

-- Whether the hole of `b` was taken again, and the heap.
unfoldable pub reclaims : ℕ → Heap → Option (Bool × Heap)
reclaims f h = do
  a ← kmalloc f h 128
  b ← kmalloc f a.1 256
  c ← kmalloc f b.1 128
  h₄ ← kfree f c.1 b.0
  d ← kmalloc f h₄ 200
  h₆ ← kfree f d.1 a.0
  h₇ ← kfree f h₆ c.0
  h₈ ← kfree f h₇ d.0
  some (d.0 == b.0, h₈)

unfoldable pub coalesces : ℕ → Heap → Option (Bool × Heap)
coalesces f h = do
  p₁ ← kmalloc f h 128
  p₂ ← kmalloc f p₁.1 128
  h₃ ← kfree f p₂.1 p₁.0
  h₄ ← kfree f h₃ p₂.0
  p₃ ← kmalloc f h₄ 250
  h₆ ← kfree f p₃.1 p₃.0
  some (p₃.0 == p₁.0, h₆)

-- `0xAAAAAAAA ^ i`
abbrev pub stamp : ℕ → ℕ
stamp i = bit_xor 0xaaaa_aaaa i

-- The first loop, for `n` blocks from the index `i` on: the pointers, the heap and the words.
unfoldable pub fill : ℕ → (n i : ℕ) → Heap → Words → Option (List ℕ × Heap × Words)
fill f zero i h w = some ([], h, w)
fill f (suc n) i h w = do
  p ← kmalloc f h 32
  rest ← if p.0 == 0 then none else fill f n (i + 1) p.1 (write_word w p.0 (stamp i))
  some (p.0 ∷ rest.0, rest.1, rest.2)

-- The second loop: `ok`.
unfoldable pub intact : ℕ → List ℕ → Words → Bool
intact i [] w = true
intact i (p ∷ ps) w = let later = intact (i + 1) ps w in if w p == stamp i then later else false

-- The third loop.
unfoldable pub free_all : ℕ → List ℕ → Heap → Option Heap
free_all f [] h = some h
free_all f (p ∷ ps) h = do h' ← kfree f h p; free_all f ps h'

abbrev stress_lines : Bool → List Line
stress_lines true = works ∷ heap_works ∷ []
stress_lines false = heap_works ∷ []

abbrev pub lines : (reclaimed coalesced intact : Bool) → List Line
lines reclaimed coalesced intact =
    testing_heap
    ∷ fragmentation
    ∷ free_b
    ∷ (if reclaimed then hole_reclaim_ok else hole_reclaim_failed)
    ∷ coalescing
    ∷ freeing
    ∷ (if coalesced then coalesce_ok else coalesce_failed)
    ∷ stress
    ∷ stress_lines intact

-- With `f` rounds for each loop of the heap.
unfoldable pub heaptest : ℕ → Heap → Words → Option (List Line × Heap × Words)
heaptest f h w = do
  first ← reclaims f h
  second ← coalesces f first.1
  filled ← fill f 64 0 second.1 w
  h' ← free_all f filled.0 filled.1
  some (lines first.0 second.0 (intact 0 filled.0 filled.2), h', filled.2)
