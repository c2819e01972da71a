-- ===== src/Heap.antt =====
-- src/kernel/heap.c: a first-fit allocator over one pool, whose blocks form a list through memory.
-- Each function holds `heap_lock` with interrupts off while it runs, so a call is one step.
-- `none` means that a loop ran out of fuel.
pub mod Layout
pub mod Chain
pub mod Malloc
pub mod Free
pub mod Payload
pub mod Coalesced
pub mod Tail
pub mod Contract
mod Tests
use barium.Prelude.{
  ℕ, zero, suc, ◌+◌, ◌-◌, ◌*◌, ◌/◌, ◌%◌, ◌^◌, Bool, ◌&&◌, not, Option, none, some, ◌==◌, ltb, leb,
  if◌then◌else◌,
}

-- `uint64_t` and pointer arithmetic.
abbrev pub u64 : ℕ → ℕ
u64 n = n % 2 ^ 64

abbrev pub sub64 : ℕ → ℕ → ℕ
sub64 a b = (a + 2 ^ 64 - b) % 2 ^ 64

-- `heap_block_t`, with `free` as 0 or 1.
pub record Block : Type 0 where
  pub size : ℕ
  pub next : ℕ
  pub free : ℕ
  pub magic : ℕ

-- The header that stands at each address.
abbrev pub Memory : Type 0
Memory = ℕ → Block

pub write : Memory → ℕ → Block → Memory
write m a b x = if x == a then b else m x

-- `sizeof(heap_block_t)` and `HEAP_MAGIC`.
abbrev pub header_size : ℕ
header_size = 24

abbrev pub heap_magic : ℕ
heap_magic = 0xba41_0101

-- The memory and `heap_start`.
pub record Heap : Type 0 where
  pub memory : Memory
  pub start : ℕ

-- `pool` is what `pmm_alloc(1024)` returns.
pub heap_init : Memory → ℕ → Heap
heap_init m pool = record {
  memory =
      write m pool
        (record { size = 1024 * 4096 - header_size; next = 0; free = 1; magic = heap_magic });
  start = pool;
}

-- `(size + 7) & ~7`
unfoldable pub round_up : ℕ → ℕ
round_up size = u64 (size + 7) / 8 * 8

-- The first assignments of a hit: a large block is cut in two.
pub split : Memory → ℕ → ℕ → Memory
split m current size =
    let c = m current in
    if ltb (u64 (size + header_size + 16)) c.size
    then (let new_block = u64 (current + header_size + size) in
        let m1 = write m new_block (record {
          size = sub64 (sub64 c.size size) header_size;
          next = c.next;
          free = 1;
          magic = heap_magic;
        }) in
        write m1 current (record (m1 current) { size = size; next = new_block }))
    else m

-- A hit: the block is cut, taken, and its payload returned.
pub take_block : Memory → ℕ → ℕ → ℕ × Memory
take_block m current size =
    let m' = split m current size in
    (u64 (current + header_size), write m' current (record (m' current) { free = 0 }))

-- `current->free && current->size >= size`
pub fits : Block → ℕ → Bool
fits b size = not (b.free == 0) && leb size b.size

-- The loop of `kmalloc`.
pub malloc_loop : ℕ → Memory → ℕ → ℕ → Option (ℕ × Memory)
malloc_loop zero m size current = none
malloc_loop (suc fuel) m size current =
    let rest = malloc_loop fuel m size (m current).next in
    if current == 0
    then some (0, m)
    else if fits (m current) size
    then some (take_block m current size)
    else rest

pub kmalloc : ℕ → Heap → ℕ → Option (ℕ × Heap)
kmalloc fuel h size =
    if size == 0 then some (0, h) else elim (malloc_loop fuel h.memory (round_up size) h.start) [
      | none ↦ none
      | some (p, m) ↦ some (p, record h { memory = m })
    ]

-- `current->free && current->next && current->next->free`
pub mergeable : Memory → ℕ → Bool
mergeable m current =
    not ((m current).free == 0)
    && (not ((m current).next == 0) && not ((m (m current).next).free == 0))

-- The block takes in its successor.
pub absorb : Memory → ℕ → Memory
absorb m current =
    let c = m current in
    let n = m c.next in
    write m current (record c { size = u64 (c.size + (n.size + header_size)); next = n.next })

-- The loop of `kfree`.
pub merge_loop : ℕ → Memory → ℕ → Option Memory
merge_loop zero m current = none
merge_loop (suc fuel) m current =
    let joined = merge_loop fuel (absorb m current) current in
    let moved = merge_loop fuel m (m current).next in
    if current == 0 then some m else if mergeable m current then joined else moved

pub kfree : ℕ → Heap → ℕ → Option Heap
kfree fuel h ptr =
    let block = sub64 ptr header_size in
    let b = h.memory block in
    if ptr == 0
    then some h
    else if b.magic == heap_magic
    then elim (merge_loop fuel (write h.memory block (record b { free = 1 })) h.start) [
      | none ↦ none
      | some m ↦ some (record h { memory = m })
    ]
    else some h
