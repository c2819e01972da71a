-- ===== src/Vmm/Link.antt =====
-- A table that is missing: it is a page that was free, cleared, and linked from its entry.
use barium.Prelude.{
  ℕ, ◌+◌, ◌*◌, ◌/◌, ◌%◌, ◌≤◌, ◌<◌, ◌≡◌, ◌≢◌, ◌⊎◌, refl, sym, ◌∙◌, ap, true, false, ◌==◌, ◌&&◌,
  if◌then◌else◌, List, [], ◌∷◌, arith, Bool-cases, inl, inr, length, All,
}
use barium.Vmm.{Words, write_word, is_present, with_flags, clear_words}
use barium.Vmm.Tables.{slot, Kinds, IsTree, walk, IsIndex, clear_words-get}

-- Memory with the new table `f`, behind the entry `i` of the table `t`.
abbrev pub linked : Words → (f t i : ℕ) → Words
linked m f t i = write_word (clear_words 512 m (f * 4096)) (slot t i) (with_flags (f * 4096) 7)

abbrev pub with_kind : Kinds → ℕ → ℕ → Kinds
with_kind kind f k q = if q == f then k else kind q

link_word : (f : ℕ) → with_flags (f * 4096) 7 ≡ f * 4096 + 7
link_word f = let e : f * 4096 % 4096 ≡ 0 = omega arith in rw e (omega arith)

module _ (m : Words) (f t i : ℕ) (other : t ≢ f) (hi : i < 512) where
  pub linked_here : linked m f t i (slot t i) ≡ f * 4096 + 7
  linked_here = ground (arith, link_word f)

  linked_new : (j : ℕ) → j < 512 → linked m f t i (slot f j) ≡ 0
  linked_new j hj = ground (arith, clear_words-get 512 m (f * 4096) (slot f j))

  pub linked_else :
      (u j : ℕ)
      → u ≢ f
      → j < 512
      → ((u == t) && (j == i)) ≡ false
      → linked m f t i (slot u j) ≡ m (slot u j)
  linked_else u j ne hj away = ground (arith, clear_words-get 512 m (f * 4096) (slot u j))

-- Facts about a tree and a page `f` that is no table, and an entry that is not present.
module _ (m : Words) (kind : Kinds) (f t i : ℕ) (v : IsTree m kind) (new : kind f ≡ 0)
    (high : 2 ≤ kind t) (hi : i < 512) (missing : is_present (m (slot t i)) ≡ false) where
  apart_from_new : (u : ℕ) → kind u ≢ 0 → u ≢ f
  apart_from_new u ne e = ne (ap kind e ∙ new)

  -- Where an entry is present in the new memory: it is the new one, or it was there.
  present_in_linked :
      (k u j : ℕ)
      → k + 1 ≡ kind t
      → 2 ≤ with_kind kind f k u
      → j < 512
      → is_present (linked m f t i (slot u j)) ≡ true
      → ((u ≡ t) × (j ≡ i) × (linked m f t i (slot u j) / 4096 ≡ f))
        ⊎ ((2 ≤ kind u)
            × (linked m f t i (slot u j) ≡ m (slot u j))
            × (is_present (m (slot u j)) ≡ true))
  present_in_linked k u j ek hk hj here = elim (Bool-cases (u == f)) [
    | inl same ↦
        let e : u ≡ f = ground arith in
        let zero_word : linked m f t i (slot u j) ≡ 0 =
          rw e (linked_new m f t i (apart_from_new t (omega arith)) hi j hj) in
        absurd (ground (arith, zero_word))
    | inr old ↦
        let ne : u ≢ f = ground arith in
        elim (Bool-cases ((u == t) && (j == i))) [
          | inl at ↦
              let eu : u ≡ t = ground arith in
              let ej : j ≡ i = ground arith in
              let word : linked m f t i (slot u j) ≡ f * 4096 + 7 =
                rw (eu, ej) (linked_here m f t i (apart_from_new t (omega arith)) hi) in
              inl (eu, ej, omega (arith, word))
          | inr away ↦
              let same = linked_else m f t i (apart_from_new t (omega arith)) hi u j ne hj away in
              let hk' : 2 ≤ kind u = ground arith in inr (hk', same, rw same at here)
        ]
  ]

  old_target :
      (u j : ℕ) → 2 ≤ kind u → j < 512 → is_present (m (slot u j)) ≡ true → m (slot u j) / 4096 ≢ f
  old_target u j hk hj here =
      apart_from_new (m (slot u j) / 4096) (omega (arith, v.points u j hk hj here))

  pub linked-IsTree : (k : ℕ) → k + 1 ≡ kind t → IsTree (linked m f t i) (with_kind kind f k)
  linked-IsTree k ek = record {
    points = λ u j hk hj here. elim (present_in_linked k u j ek hk hj here) [
      | inl (eu, ej, target) ↦
          let ne = apart_from_new t (omega arith) in rw (target, eu) (ground arith)
      | inr (hk', same, here') ↦
          let ne = apart_from_new u (omega arith) in
          let target = old_target u j hk' hj here' in
          rw same (ground (arith, v.points u j hk' hj here'))
    ];
    allows = λ u j hk hj here. elim (present_in_linked k u j ek hk hj here) [
      | inl (eu, ej, target) ↦
          let word = linked_here m f t i (apart_from_new t (omega arith)) hi in
          rw (eu, ej, word) (omega arith)
      | inr (hk', same, here') ↦ rw same (v.allows u j hk' hj here')
    ];
    apart = λ u j u' j' hk hk' hj hj' here here' e. elim (present_in_linked k u j ek hk hj here) [
      | inl (eu, ej, target) ↦ elim (present_in_linked k u' j' ek hk' hj' here') [
        | inl (eu', ej', target') ↦ (eu ∙ sym eu', ej ∙ sym ej')
        | inr (old', same', was') ↦
            absurd
              (old_target u' j' old' hj' was' (sym (ap (λ w. w / 4096) same') ∙ sym e ∙ target))
      ]
      | inr (old, same, was) ↦ elim (present_in_linked k u' j' ek hk' hj' here') [
        | inl (eu', ej', target') ↦
            absurd (old_target u j old hj was (sym (ap (λ w. w / 4096) same) ∙ e ∙ target'))
        | inr (old', same', was') ↦
            v.apart u j u' j' old old' hj hj' was was'
              (sym (ap (λ w. w / 4096) same) ∙ e ∙ ap (λ w. w / 4096) same')
      ]
    ];
  }

  -- No walk from a table notices the new one.
  pub walk-linked :
      (is : List ℕ) (u : ℕ)
      → kind u ≡ length is
      → All IsIndex is
      → walk (linked m f t i) u is ≡ walk m u is
  unfolding walk
  walk-linked [] u e hs = refl
  walk-linked (j ∷ []) u e hs =
      let ne = apart_from_new u (omega arith) in
      let tne = apart_from_new t (omega arith) in
      let away : ((u == t) && (j == i)) ≡ false = elim (Bool-cases (u == t)) [
        | inl same ↦ let eu : u ≡ t = ground arith in absurd (omega (arith, e, ap kind eu, high))
        | inr other ↦ ground arith
      ] in
      rw (linked_else m f t i tne hi u j ne hs.0 away) refl
  walk-linked (j ∷ j' ∷ is) u e hs =
      let ne = apart_from_new u (omega arith) in
      let tne = apart_from_new t (omega arith) in
      elim (Bool-cases ((u == t) && (j == i))) [
        | inl at ↦
            let eu : u ≡ t = ground arith in
            let ej : j ≡ i = ground arith in
            let target : (f * 4096 + 7) / 4096 ≡ f = omega arith in
            let odd : is_present (f * 4096 + 7) ≡ true = ground arith in
            rw
              (
                eu,
                ej,
                linked_here m f t i tne hi,
                missing,
                odd,
                target,
                linked_new m f t i tne hi j' hs.1.0,
              )
              refl
        | inr away ↦
            rw (linked_else m f t i tne hi u j ne hs.0 away)
              (elim (Bool-cases (is_present (m (slot u j)))) [
                | inl here ↦
                    let below = v.points u j (omega (arith, e)) hs.0 here in
                    rw here
                      (walk-linked (j' ∷ is) (m (slot u j) / 4096) (omega (arith, e, below)) hs.1)
                | inr gone ↦ rw gone refl
              ])
      ]
