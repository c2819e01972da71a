-- ===== src/Alpc/Sections/Table.antt =====
-- The table of sections after some creations, and what filling a slot and looking up an id do to it.
use barium.Prelude.{
  ℕ, suc, ◌+◌, ◌≤◌, ◌<◌, ◌≡◌, ◌≢◌, ◌⊎◌, refl, ap, true, false, Option, none, some, List, [], ◌∷◌,
  ◌==◌, ltb, if◌then◌else◌, length, arith, Bool-cases, inl, inr,
}
use barium.Alpc.Sections.{Section, fill_slot, find_section}

-- The slots from the index `j` on, after `k` creations.
abbrev pub IsTable : (j k : ℕ) → List Section → Type 0
IsTable j k [] = Unit
IsTable j k (x ∷ xs) =
    (x.id ≡ (if ltb j k then j + 1 else 0))
    × (x.size ≡ (if ltb j k then 4096 else 0))
    × IsTable (j + 1) k xs

-- A slot is filled while there is one.
abbrev pub Fills : (j k : ℕ) → List Section → Option (List Section) → Type 0
Fills j k xs none = (j + length xs ≤ k) × IsTable j (k + 1) xs
Fills j k xs (some xs') = (k < j + length xs) × (length xs' ≡ length xs) × IsTable j (k + 1) xs'

IsTable-later : (xs : List Section) (j k : ℕ) → k < j → IsTable j k xs → IsTable j (k + 1) xs
IsTable-later [] j k h t = tt
IsTable-later (x ∷ xs) j k h t =
    (ground (arith, t.0), ground (arith, t.1), IsTable-later xs (j + 1) k (omega arith) t.2)

Fills-cons :
    (j k : ℕ) (x : Section) (xs : List Section) (o : Option (List Section))
    → j < k
    → x.id ≡ j + 1
    → x.size ≡ 4096
    → Fills (j + 1) k xs o
    → Fills j k (x ∷ xs) (elim o [ none ↦ none | some xs' ↦ some (x ∷ xs') ])
Fills-cons j k x xs none h id size f =
    (omega (arith, f.0), (ground (arith, id), ground (arith, size), f.1))
Fills-cons j k x xs (some xs') h id size f =
    (omega (arith, f.0), ap suc f.1, (ground (arith, id), ground (arith, size), f.2))

pub fill_slot-Fills :
    (xs : List Section) (x : Section) (j k : ℕ)
    → j ≤ k
    → x.id ≡ k + 1
    → x.size ≡ 4096
    → IsTable j k xs
    → Fills j k xs (fill_slot xs x)
unfolding fill_slot
fill_slot-Fills [] x j k h id size t = (omega arith, tt)
fill_slot-Fills (y ∷ ys) x j k h id size t = elim (Bool-cases (ltb j k)) [
  | inl taken ↦
      let used : (y.id == 0) ≡ false = ground (arith, t.0) in
      rw used (
        Fills-cons j k y ys (fill_slot ys x) (ground arith) (ground (arith, t.0))
          (ground (arith, t.1)) (fill_slot-Fills ys x (j + 1) k (ground arith) id size t.2))
  | inr new ↦
      let unused : (y.id == 0) ≡ true = ground (arith, t.0) in
      let at : j ≡ k = ground arith in
      rw unused (
        omega (arith, at),
        refl,
        (
          ground (arith, at, id),
          ground (arith, at, size),
          IsTable-later ys (j + 1) k (omega (arith, at)) t.2,
        ),
      )
]

-- What a lookup of an id finds in `n` slots.
abbrev pub Finds : (j k n id : ℕ) → Option Section → Type 0
Finds j k n id none = ((id ≡ 0) × (j + n ≤ k)) ⊎ ((id ≢ 0) × ((k < id) ⊎ (j + n < id)))
Finds j k n id (some x) =
    ((id ≡ 0) × (k < j + n) × (x.size ≡ 0)) ⊎ ((id ≢ 0) × (id ≤ k) × (id ≤ j + n) × (x.size ≡ 4096))

-- No id is found among free slots.
find_section_free :
    (xs : List Section) (j k id : ℕ) → k ≤ j → id ≢ 0 → IsTable j k xs → find_section xs id ≡ none
unfolding find_section
find_section_free [] j k id le ne t = refl
find_section_free (x ∷ xs) j k id le ne t =
    let other : (x.id == id) ≡ false = ground (arith, t.0) in
    rw other (find_section_free xs (j + 1) k id (omega arith) ne t.2)

Finds-cons : (j k n id : ℕ) (o : Option Section) → Finds (j + 1) k n id o → Finds j k (suc n) id o
Finds-cons j k n id none f = ground arith
Finds-cons j k n id (some x) f = ground arith

pub find_section-Finds :
    (xs : List Section) (j k id : ℕ)
    → (id ≡ 0) ⊎ (j < id)
    → IsTable j k xs
    → j ≤ k
    → Finds j k (length xs) id (find_section xs id)
unfolding find_section
find_section-Finds [] j k id (inl z) t le = inl (z, omega arith)
find_section-Finds [] j k id (inr h) t le = inr (omega arith, inr (omega arith))
find_section-Finds (x ∷ xs) j k id h t le = elim (Bool-cases (x.id == id)) [
  | inl e ↦ rw e (ground (arith, t.0, t.1))
  | inr e ↦ rw e (elim (Bool-cases (ltb j k)) [
    | inl taken ↦
        Finds-cons j k (length xs) id (find_section xs id)
          (find_section-Finds xs (j + 1) k id (ground (arith, t.0)) t.2 (ground arith))
    | inr free ↦
        let ne : id ≢ 0 = ground (arith, t.0) in
        rw (find_section_free xs (j + 1) k id (ground arith) ne t.2) (inr (ne, inl (ground arith)))
  ])
]
