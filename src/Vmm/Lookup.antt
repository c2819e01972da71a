-- ===== src/Vmm/Lookup.antt =====
-- The last step of `vmm_map`: one entry of a table of pages changes one walk.
use barium.Prelude.{
  ℕ, ◌+◌, ◌/◌, ◌≤◌, ◌<◌, ◌≡◌, ◌≢◌, refl, sym, ◌∙◌, ap, ap₂, true, false, ◌==◌, ◌&&◌, List, [], ◌∷◌,
  ◌++◌, arith, Bool-cases, inl, inr, length, All,
}
use barium.Vmm.{Words, write_word, is_present, frame}
use barium.Vmm.Tables.{slot, Kinds, IsTree, walk, IsIndex}

-- The entries of the indices `js` lead from the table `t` to the table `pt`.
abbrev pub Reaches : Words → List ℕ → ℕ → ℕ → Type 0
Reaches m [] t pt = t ≡ pt
Reaches m (j ∷ js) t pt =
    (j < 512) × (is_present (m (slot t j)) ≡ true) × Reaches m js (m (slot t j) / 4096) pt

module _ (m : Words) (kind : Kinds) (v : IsTree m kind) (pt i w : ℕ) (lowest : kind pt ≡ 1)
    (hi : i < 512) where
  unfoldable pub written : Words
  written = write_word m (slot pt i) w

  word_elsewhere :
      (t j : ℕ) → j < 512 → ((t == pt) && (j == i)) ≡ false → written (slot t j) ≡ m (slot t j)
  unfolding written
  word_elsewhere t j hj away = ground arith

  high_elsewhere : (t j : ℕ) → j < 512 → 2 ≤ kind t → written (slot t j) ≡ m (slot t j)
  high_elsewhere t j hj high =
      let ne : t ≢ pt = λ e. let k = ap kind e in absurd (omega (arith, k, high, lowest)) in
      word_elsewhere t j hj (ground arith)

  -- A walk from another table of the same level does not come to `pt`.
  off_path :
      (js is : List ℕ) (t u : ℕ)
      → t ≢ u
      → kind t ≡ length js + 1
      → kind u ≡ length js + 1
      → Reaches m js t pt
      → length is ≡ length js + 1
      → All IsIndex is
      → walk written u is ≡ walk m u is
  unfolding walk
  off_path js [] t u ne kt ku r len hs = refl
  off_path [] (k ∷ []) t u ne kt ku r len hs =
      let away : u ≢ pt = λ e. ne (r ∙ sym e) in rw (word_elsewhere u k hs.0 (ground arith)) refl
  off_path [] (k ∷ k' ∷ is) t u ne kt ku r len hs = absurd (omega (arith, len))
  off_path (j ∷ js) (k ∷ is) t u ne kt ku r len hs =
      rw (high_elsewhere u k hs.0 (omega arith)) (elim (Bool-cases (is_present (m (slot u k)))) [
        | inr gone ↦ rw gone refl
        | inl here ↦ rw here (
            off_path js is (m (slot t j) / 4096) (m (slot u k) / 4096)
              (λ e. ne (v.apart t j u k (omega arith) (omega arith) r.0 hs.0 r.1 here e).0)
              (omega (arith, v.points t j (omega arith) r.0 r.1))
              (omega (arith, v.points u k (omega arith) hs.0 here)) r.2 (omega arith) hs.1)
      ])

  -- The walk to the entry finds the frame that was written.
  pub walk-written :
      (js : List ℕ) (t : ℕ)
      → kind t ≡ length js + 1
      → is_present w ≡ true
      → Reaches m js t pt
      → walk written t (js ++ (i ∷ [])) ≡ frame w
  unfolding walk
  walk-written [] t kt here r =
      let at : written (slot t i) ≡ w = unfold written in rw r (ground arith) in rw (at, here) refl
  walk-written (j ∷ js) t kt here r =
      rw (high_elsewhere t j r.0 (omega arith), r.1)
        (walk-written js (m (slot t j) / 4096) (omega (arith, v.points t j (omega arith) r.0 r.1))
          here r.2)

  -- The entry stands at the end of the same way, and is what was written.
  pub Reaches-written :
      (js : List ℕ) (t : ℕ) → kind t ≡ length js + 1 → Reaches m js t pt → Reaches written js t pt
  Reaches-written [] t kt r = r
  Reaches-written (j ∷ js) t kt r = rw (high_elsewhere t j r.0 (omega arith)) (
    r.0,
    r.1,
    Reaches-written js (m (slot t j) / 4096) (omega (arith, v.points t j (omega arith) r.0 r.1))
        r.2,
  )

  -- Every other walk from there leads where it did.
  pub walk-written_ne :
      (js is : List ℕ) (t : ℕ)
      → kind t ≡ length js + 1
      → Reaches m js t pt
      → length is ≡ length js + 1
      → All IsIndex is
      → is ≢ js ++ (i ∷ [])
      → walk written t is ≡ walk m t is
  unfolding walk
  walk-written_ne js [] t kt r len hs ne = refl
  walk-written_ne [] (k ∷ []) t kt r len hs ne =
      let other : k ≢ i = λ e. ne (ap (λ x. x ∷ []) e) in
      rw (word_elsewhere t k hs.0 (ground arith)) refl
  walk-written_ne [] (k ∷ k' ∷ is) t kt r len hs ne = absurd (omega (arith, len))
  walk-written_ne (j ∷ js) (k ∷ is) t kt r len hs ne =
      rw (high_elsewhere t k hs.0 (omega arith)) (elim (Bool-cases (is_present (m (slot t k)))) [
        | inr gone ↦ rw gone refl
        | inl here ↦
            let below = v.points t k (omega arith) hs.0 here in
            rw here (elim (Bool-cases (k == j)) [
              | inl same ↦
                  let e : k ≡ j = ground arith in
                  walk-written_ne js is (m (slot t k) / 4096) (omega (arith, below)) (rw e r.2)
                    (omega arith) hs.1 (λ e'. ne (ap₂ ◌∷◌ e e'))
              | inr other ↦
                  off_path js is (m (slot t j) / 4096) (m (slot t k) / 4096)
                    (λ e.
                      let at =
                        (v.apart t j t k (omega arith) (omega arith) r.0 hs.0 r.1 here e).1 in
                      absurd (ground arith))
                    (omega (arith, v.points t j (omega arith) r.0 r.1)) (omega (arith, below)) r.2
                    (omega arith) hs.1
            ])
      ])

  pub written-IsTree : IsTree written kind
  written-IsTree = record {
    points = λ t j high hj here.
        let same = high_elsewhere t j hj high in rw same (v.points t j high hj (rw same at here));
    allows = λ t j high hj here.
        let same = high_elsewhere t j hj high in rw same (v.allows t j high hj (rw same at here));
    apart = λ t j t' j' high high' hj hj' here here' e.
        let same = high_elsewhere t j hj high in
        let same' = high_elsewhere t' j' hj' high' in
        v.apart t j t' j' high high' hj hj' (rw same at here) (rw same' at here')
          (sym (ap (λ x. x / 4096) same) ∙ e ∙ ap (λ x. x / 4096) same');
  }
