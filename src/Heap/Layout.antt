-- ===== src/Heap/Layout.antt =====
-- The abstract heap: the blocks of the pool in address order, each with its size and whether it is
-- free. Where a block stands follows from the sizes before it.
use barium.Prelude.{
  ℕ, ◌+◌, ◌-◌, Bool, true, false, ◌&&◌, ◌||◌, Option, none, some, List, [], ◌∷◌, ◌==◌, ltb, leb,
  if◌then◌else◌,
}

pub record Seg : Type 0 where
  pub size : ℕ
  pub free : Bool

abbrev pub seg : ℕ → Bool → Seg
seg n f = record { size = n; free = f }

-- The bytes that blocks take, headers included.
unfoldable pub total : List Seg → ℕ
total [] = 0
total (s ∷ r) = 24 + s.size + total r

-- A block taken for `n` bytes, and the free block that is cut off it.
unfoldable pub carve : ℕ → Seg → List Seg → List Seg
carve n s r =
    if ltb (n + 40) s.size
    then seg n false ∷ seg (s.size - n - 24) true ∷ r
    else seg s.size false ∷ r

-- The first free block of at least `n` bytes is taken; 0 if there is none. The number is where
-- the first block stands.
unfoldable pub alloc : ℕ → ℕ → List Seg → ℕ × List Seg
unfolding carve
alloc n a [] = (0, [])
alloc n a (s ∷ r) =
    let (p, r') = alloc n (a + 24 + s.size) r in
    if s.free && leb n s.size then (a + 24, carve n s r) else (p, s ∷ r')

-- The block with the payload at `p` is marked free.
unfoldable pub mark : ℕ → ℕ → List Seg → List Seg
mark p a [] = []
mark p a (s ∷ r) =
    let r' = mark p (a + 24 + s.size) r in if p == a + 24 then seg s.size true ∷ r else s ∷ r'

-- Runs of free blocks become one block each.
unfoldable pub merge_from : Seg → List Seg → List Seg
merge_from s [] = s ∷ []
merge_from s (t ∷ r) =
    let both = s.free && t.free in
    let rest = merge_from (if both then seg (s.size + 24 + t.size) true else t) r in
    if both then rest else s ∷ rest

unfoldable pub merge : List Seg → List Seg
unfolding merge_from
merge [] = []
merge (s ∷ r) = merge_from s r

-- The size of the allocated block whose payload is at `p`.
unfoldable pub payload : ℕ → ℕ → List Seg → Option ℕ
payload p a [] = none
payload p a (s ∷ r) =
    let later = payload p (a + 24 + s.size) r in
    if p == a + 24 then (if s.free then none else some s.size) else later

-- Some block, free or not, has its payload at `p`.
unfoldable pub is_block : ℕ → ℕ → List Seg → Bool
is_block p a [] = false
is_block p a (s ∷ r) = p == a + 24 || is_block p (a + 24 + s.size) r
