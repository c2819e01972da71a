-- ===== src/Heap/Payload.antt =====
-- Which addresses are allocated after an allocation, a marking and a joining of blocks.
use barium.Prelude.{
  ℕ, ◌+◌, ◌-◌, ◌≤◌, ◌<◌, ◌≡◌, ◌≢◌, refl, ap, ◌∙◌, ◌⊎◌, inl, inr, true, false, ◌&&◌, none, some,
  List, [], ◌∷◌, arith, ◌==◌, ltb, leb, if◌then◌else◌, Bool-cases,
}
use barium.Heap.Layout.{Seg, seg, carve, alloc, mark, merge_from, merge, payload, is_block}

payload-below : (q a : ℕ) (l : List Seg) → q < a + 24 → payload q a l ≡ none
unfolding payload
payload-below q a [] h = refl
payload-below q a (s ∷ r) h = ground (arith, payload-below q (a + 24 + s.size) r)

-- No free block has room for `n` bytes.
abbrev pub NoRoom : ℕ → List Seg → Type 0
NoRoom n [] = Unit
NoRoom n (s ∷ r) = ((s.free && leb n s.size) ≡ false) × NoRoom n r

-- `p` is a new payload of at least `n` bytes, and no other payload changed.
pub record Served (n a p : ℕ) (l l' : List Seg) : Type 0 where
  pub behind : a + 24 ≤ p
  pub fresh : payload p a l ≡ none
  pub size : ℕ
  pub holds : payload p a l' ≡ some size
  pub enough : n ≤ size
  pub others : (q : ℕ) → q ≢ p → payload q a l' ≡ payload q a l

carve-Served :
    (n a : ℕ) (s : Seg) (r : List Seg)
    → (s.free && leb n s.size) ≡ true
    → Served n a (a + 24) (s ∷ r) (carve n s r)
unfolding carve payload
carve-Served n a s r hit = elim (Bool-cases (ltb (n + 40) s.size)) [
  | inl big ↦
      let e : a + 24 + n + 24 + (s.size - n - 24) ≡ a + 24 + s.size = ground arith in
      rw big (record {
        behind = omega arith;
        fresh = ground arith;
        size = n;
        holds = ground arith;
        enough = omega arith;
        others = λ q ne. rw e (ground (arith, payload-below q (a + 24 + s.size) r));
      })
  | inr small ↦ rw small (record {
    behind = omega arith;
    fresh = ground arith;
    size = s.size;
    holds = ground arith;
    enough = ground arith;
    others = λ q ne. ground arith;
  })
]

-- First fit serves a new payload, or fails and changes nothing where no free block has room.
pub alloc-Served :
    (n a : ℕ) (l : List Seg)
    → Served n a (alloc n a l).0 l (alloc n a l).1
      ⊎ (((alloc n a l).0 ≡ 0) × ((alloc n a l).1 ≡ l) × NoRoom n l)
unfolding alloc
alloc-Served n a [] = inr (refl, refl, tt)
alloc-Served n a (s ∷ r) = elim (Bool-cases (s.free && leb n s.size)) [
  | inl hit ↦ rw hit (inl (carve-Served n a s r hit))
  | inr miss ↦ rw miss (elim (alloc-Served n (a + 24 + s.size) r) [
    | inl v ↦ inl (
        unfold payload in
        record {
          behind = omega (arith, v.behind);
          fresh = ground (arith, v.fresh, v.behind);
          size = v.size;
          holds = ground (arith, v.holds, v.behind);
          enough = v.enough;
          others = λ q ne. ground (arith, v.others q ne);
        })
    | inr v ↦ inr (v.0, ap (λ r'. s ∷ r') v.1, (refl, v.2))
  ])
]

-- A block that is allocated is a block.
pub is_block_of_payload :
    (p a : ℕ) (l : List Seg) (k : ℕ) → payload p a l ≡ some k → is_block p a l ≡ true
unfolding payload is_block
is_block_of_payload p a [] k h = cc
is_block_of_payload p a (s ∷ r) k h = ground (arith, is_block_of_payload p (a + 24 + s.size) r k)

-- Marking frees that payload alone.
pub payload-mark :
    (q p a : ℕ) (l : List Seg) → payload q a (mark p a l) ≡ (if q == p then none else payload q a l)
unfolding payload mark
payload-mark q p a [] = ground arith
payload-mark q p a (s ∷ r) =
    ground (arith, payload-mark q p (a + 24 + s.size) r, payload-below q (a + 24 + s.size) r)

-- Joining free blocks changes no payload.
payload-merge_from :
    (q a : ℕ) (s : Seg) (r : List Seg) → payload q a (merge_from s r) ≡ payload q a (s ∷ r)
unfolding payload merge_from
payload-merge_from q a s [] = refl
payload-merge_from q a s (t ∷ r) = elim (Bool-cases (s.free && t.free)) [
  | inl both ↦
      let e : a + 24 + (s.size + 24 + t.size) ≡ a + 24 + s.size + 24 + t.size = omega arith in
      rw both (
        payload-merge_from q a (seg (s.size + 24 + t.size) true) r
        ∙ rw e (ground (arith, payload-below q (a + 24 + s.size + 24 + t.size) r)))
  | inr apart ↦ rw apart (ground (arith, payload-merge_from q (a + 24 + s.size) t r))
]

pub payload-merge : (q a : ℕ) (l : List Seg) → payload q a (merge l) ≡ payload q a l
unfolding merge
payload-merge q a [] = refl
payload-merge q a (s ∷ r) = payload-merge_from q a s r
