-- ===== src/Shell/HeapTest/Tests.antt =====
-- `heaptest` on the heap as `heap_init` leaves it.
use barium.Prelude.{◌*◌, ◌-◌, ◌≡◌, true, some, [], ◌∷◌, arith}
use barium.Heap.{Memory, Heap, heap_init}
use barium.Heap.Layout.{seg, total}
use barium.Heap.Chain.{heap_init-IsHeap}
use barium.Heap.Tail.{Ends}
use barium.Vmm.{Words}
use barium.Shell.HeapTest.{heaptest, lines}
use barium.Shell.HeapTest.Stress.{heaptest_restores}

abbrev zeroed : Memory
zeroed a = record { size = 0; next = 0; free = 0; magic = 0 }

abbrev fresh : Heap
fresh = heap_init zeroed 0x100_0000

fresh-Ends : Ends [] (seg (1024 * 4096 - 24) true ∷ []) fresh.start fresh
unfolding total
fresh-Ends = record {
  valid = heap_init-IsHeap zeroed 0x100_0000 (omega arith) (omega arith);
  used = tt;
  at = omega arith;
}

heaptest_restores_example :
    (h' : Heap) × (w' : Words) × (heaptest 71 fresh (λ a. 0) ≡ some (lines true true true, h', w'))
    × Ends [] (seg (1024 * 4096 - 24) true ∷ []) fresh.start h'
heaptest_restores_example =
    heaptest_restores 71 (1024 * 4096 - 24) fresh.start [] fresh (λ a. 0) fresh-Ends (omega arith)
      (omega arith)
