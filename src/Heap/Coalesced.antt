-- ===== src/Heap/Coalesced.antt =====
-- No two free blocks stand side by side: `kmalloc` and `kfree` keep it, and it makes freeing undo
-- allocating.
use barium.Prelude.{
  ℕ, ◌+◌, ◌-◌, ◌≤◌, ◌<◌, ◌≡◌, ◌≢◌, refl, sym, ap, ◌∙◌, inl, inr, Bool, true, false, ◌&&◌, List, [],
  ◌∷◌, arith, ltb, leb, Bool-cases,
}
use barium.Heap.Layout.{Seg, seg, carve, alloc, mark, merge_from, merge}

-- The first of the blocks is free.
abbrev pub free_head : List Seg → Bool
free_head [] = false
free_head (s ∷ r) = s.free

abbrev pub Coalesced : List Seg → Type 0
Coalesced [] = Unit
Coalesced (s ∷ r) = ((s.free && free_head r) ≡ false) × Coalesced r

free_head-merge_from : (s : Seg) (r : List Seg) → free_head (merge_from s r) ≡ s.free
unfolding merge_from
free_head-merge_from s [] = refl
free_head-merge_from s (t ∷ r) = elim (Bool-cases (s.free && t.free)) [
  | inl both ↦ rw both (ground (arith, free_head-merge_from (seg (s.size + 24 + t.size) true) r))
  | inr apart ↦ rw apart
]

merge_from-Coalesced : (s : Seg) (r : List Seg) → Coalesced (merge_from s r)
unfolding merge_from
merge_from-Coalesced s [] = (ground arith, tt)
merge_from-Coalesced s (t ∷ r) = elim (Bool-cases (s.free && t.free)) [
  | inl both ↦ rw both (merge_from-Coalesced (seg (s.size + 24 + t.size) true) r)
  | inr apart ↦ rw apart (rw (free_head-merge_from t r) apart, merge_from-Coalesced t r)
]

-- The loop of `kfree` leaves no two free blocks side by side.
pub merge-Coalesced : (l : List Seg) → Coalesced (merge l)
unfolding merge
merge-Coalesced [] = tt
merge-Coalesced (s ∷ r) = merge_from-Coalesced s r

-- An allocation frees nothing.
free_head-alloc : (n a : ℕ) (l : List Seg) → free_head l ≡ false → free_head (alloc n a l).1 ≡ false
unfolding alloc carve
free_head-alloc n a [] h = refl
free_head-alloc n a (s ∷ r) h = ground arith

pub alloc-Coalesced : (n a : ℕ) (l : List Seg) → Coalesced l → Coalesced (alloc n a l).1
unfolding alloc carve
alloc-Coalesced n a [] c = tt
alloc-Coalesced n a (s ∷ r) c =
    ground (arith, alloc-Coalesced n (a + 24 + s.size) r, free_head-alloc n (a + 24 + s.size) r)

merge_from_self : (s : Seg) (r : List Seg) → Coalesced (s ∷ r) → merge_from s r ≡ s ∷ r
unfolding merge_from
merge_from_self s [] c = refl
merge_from_self s (t ∷ r) c = rw c.0 (ap (λ l. s ∷ l) (merge_from_self t r c.1))

-- An allocation that succeeds returns an address behind the first header.
alloc-le : (n a : ℕ) (l : List Seg) → (alloc n a l).0 ≢ 0 → a + 24 ≤ (alloc n a l).0
unfolding alloc
alloc-le n a [] h = absurd (h refl)
alloc-le n a (s ∷ r) h = ground (arith, alloc-le n (a + 24 + s.size) r)

mark_here : (a : ℕ) (s : Seg) (r : List Seg) → mark (a + 24) a (s ∷ r) ≡ seg s.size true ∷ r
unfolding mark
mark_here a s r = ground arith

merge_apart :
    (s : Seg) (l : List Seg) → (s.free && free_head l) ≡ false → merge (s ∷ l) ≡ s ∷ merge l
unfolding merge merge_from
merge_apart s [] e = refl
merge_apart s (t ∷ r) e = rw e

free_head-merge : (l : List Seg) → free_head (merge l) ≡ free_head l
unfolding merge
free_head-merge [] = refl
free_head-merge (s ∷ r) = free_head-merge_from s r

-- Freeing a block just cut or taken restores it.
merge-carve :
    (n a : ℕ) (s : Seg) (r : List Seg)
    → Coalesced (s ∷ r)
    → (s.free && leb n s.size) ≡ true
    → merge (mark (a + 24) a (carve n s r)) ≡ s ∷ r
unfolding carve
merge-carve n a s r c hit =
    let free : s ≡ seg s.size true = ground arith in
    let same : merge_from (seg s.size true) r ≡ s ∷ r = rw (← free) (merge_from_self s r c) in
    elim (Bool-cases (ltb (n + 40) s.size)) [
      | inl big ↦
          let e : n + 24 + (s.size - n - 24) ≡ s.size = ground arith in
          rw (big, mark_here) (unfold merge merge_from in rw e same)
      | inr small ↦ rw (small, mark_here) (unfold merge in same)
    ]

mark_later :
    (p a : ℕ) (s : Seg) (r : List Seg)
    → a + 24 < p
    → mark p a (s ∷ r) ≡ s ∷ mark p (a + 24 + s.size) r
unfolding mark
mark_later p a s r h = ground arith

-- Freeing what was just allocated gives the blocks that were there before.
pub merge-mark-alloc :
    (n a : ℕ) (l : List Seg)
    → Coalesced l
    → (alloc n a l).0 ≢ 0
    → merge (mark (alloc n a l).0 a (alloc n a l).1) ≡ l
unfolding alloc
merge-mark-alloc n a [] c found = absurd (found refl)
merge-mark-alloc n a (s ∷ r) c found = elim (Bool-cases (s.free && leb n s.size)) [
  | inl hit ↦ rw hit (merge-carve n a s r c hit)
  | inr miss ↦
      let b = a + 24 + s.size in
      let found' : (alloc n b r).0 ≢ 0 = ground arith in
      let ih = merge-mark-alloc n b r c.1 found' in
      let x = mark (alloc n b r).0 b (alloc n b r).1 in
      let head : free_head x ≡ free_head r = sym (free_head-merge x) ∙ ap (λ l. free_head l) ih in
      let later = alloc-le n b r found' in
      rw miss (
        rw (mark_later (alloc n b r).0 a s (alloc n b r).1 (omega arith))
          (merge_apart s x (rw head c.0) ∙ ap (λ l. s ∷ l) ih))
]
