-- ===== src/Vmm/Entry.antt =====
-- The entry that `vmm_map` leaves, and mapping a page where it is mapped already.
use barium.Prelude.{
  ℕ, ◌+◌, ◌*◌, ◌<◌, ◌≡◌, refl, sym, ◌∙◌, true, [], ◌∷◌, arith, length, Bool-cases, inl, inr, ◌==◌,
}
use barium.Pmm.One.{pages_left}
use barium.Vmm.{
  Words, Vmm, write_word, is_present, frame, with_flags, vmm_map, vmm_get_phys, pml4_idx, pdpt_idx,
  pd_idx, pt_idx,
}
use barium.Vmm.Tables.{slot, Kinds, get_phys_same_page}
use barium.Vmm.Next.{IsVmm}
use barium.Vmm.Lookup.{Reaches, Reaches-written, written}
use barium.Vmm.Contract.{page_number, Path3, three_tables, vmm_map-Mapped}

-- The entry of the table of pages that a processor uses for an address.
abbrev pub HasEntry : Words → (root virt entry : ℕ) → Type 0
HasEntry m root virt entry =
    (page : ℕ) × Reaches m (pml4_idx virt ∷ pdpt_idx virt ∷ pd_idx virt ∷ []) root page
    × (m (slot page (pt_idx virt)) ≡ entry)

last_entry-HasEntry :
    (s : Vmm) (kind : Kinds) (root virt w pt : ℕ) (s' : Vmm)
    → kind root ≡ 4
    → Path3 s kind root virt pt s'
    → HasEntry (write_word s'.words (pt + 8 * pt_idx virt) w) root virt w
unfolding written
last_entry-HasEntry s kind root virt w pt s' top t =
    let js = pml4_idx virt ∷ pdpt_idx virt ∷ pd_idx virt ∷ [] in
    let top' = t.grows.kinds root (omega (arith, top)) in
    let four : t.kind' root ≡ length js + 1 = omega (arith, top, top') in
    rw (t.at) (
      t.page,
      Reaches-written s'.words t.kind' t.valid.tree t.page (pt_idx virt) w t.lowest (omega arith) js
          root four t.reaches,
      ground arith,
    )

-- `vmm_map` leaves the frame with the flags in that entry.
pub vmm_map-HasEntry :
    (s : Vmm) (kind : Kinds) (root virt phys flags : ℕ)
    → IsVmm s kind
    → kind root ≡ 4
    → 3 < pages_left s.pmm
    → HasEntry
        (vmm_map s (root * 4096) virt phys flags).words
        root
        virt
        (with_flags (frame phys) flags)
unfolding vmm_map
vmm_map-HasEntry s kind root virt phys flags v top room =
    last_entry-HasEntry s kind root virt _ _ _ top (three_tables s kind root virt v top room)

pub frame-vmm_get_phys :
    (m : Words) (pml4 virt : ℕ) → frame (vmm_get_phys m pml4 virt) ≡ vmm_get_phys m pml4 virt
unfolding vmm_get_phys
frame-vmm_get_phys m pml4 virt =
    let e₄ = m (pml4 + 8 * pml4_idx virt) in
    let e₃ = m (frame e₄ + 8 * pdpt_idx virt) in
    let e₂ = m (frame e₃ + 8 * pd_idx virt) in
    let e₁ = m (frame e₂ + 8 * pt_idx virt) in
    elim (Bool-cases (is_present e₄)) [
      | inr gone ↦ rw gone refl
      | inl h₄ ↦ elim (Bool-cases (is_present e₃)) [
        | inr gone ↦ rw (h₄, gone) refl
        | inl h₃ ↦ elim (Bool-cases (is_present e₂)) [
          | inr gone ↦ rw (h₄, h₃, gone) refl
          | inl h₂ ↦ elim (Bool-cases (is_present e₁)) [
            | inr gone ↦ rw (h₄, h₃, h₂, gone) refl
            | inl h₁ ↦ rw (h₄, h₃, h₂, h₁) (omega arith)
          ]
        ]
      ]
    ]

-- A page that is mapped to where it is mapped already changes no translation.
pub vmm_map_again :
    (s : Vmm) (kind : Kinds) (root virt flags a : ℕ)
    → IsVmm s kind
    → kind root ≡ 4
    → 3 < pages_left s.pmm
    → flags < 4096
    → is_present flags ≡ true
    → let phys = vmm_get_phys s.words (root * 4096) virt in
      vmm_get_phys (vmm_map s (root * 4096) (frame virt) phys flags).words (root * 4096) a
      ≡ vmm_get_phys s.words (root * 4096) a
vmm_map_again s kind root virt flags a v top room small odd =
    let phys = vmm_get_phys s.words (root * 4096) virt in
    let s' = vmm_map s (root * 4096) (frame virt) phys flags in
    let mapped = vmm_map-Mapped s kind root (frame virt) phys flags v top room small odd in
    let page : page_number (frame virt) ≡ page_number virt = omega arith in
    elim (Bool-cases (page_number a == page_number (frame virt))) [
      | inl e ↦
          let same : page_number a ≡ page_number (frame virt) = ground arith in
          get_phys_same_page s'.words (root * 4096) a (frame virt) same
          ∙ mapped.here
          ∙ frame-vmm_get_phys s.words (root * 4096) virt
          ∙ sym (get_phys_same_page s.words (root * 4096) a virt (same ∙ page))
      | inr e ↦ mapped.others a (ground arith)
    ]
