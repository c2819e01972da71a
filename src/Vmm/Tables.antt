-- ===== src/Vmm/Tables.antt =====
-- When memory holds a tree of page tables, and the walk down the tree.
use barium.Prelude.{
  ℕ, zero, suc, ◌+◌, ◌*◌, ◌/◌, ◌%◌, ◌^◌, ◌≤◌, ◌<◌, ◌≡◌, refl, true, ◌==◌, ltb, leb, ◌&&◌,
  if◌then◌else◌, List, [], ◌∷◌, arith,
}
use barium.Vmm.{
  Words, write_word, is_present, vmm_get_phys, pml4_idx, pdpt_idx, pd_idx, pt_idx, clear_words,
}

-- The address of the entry `i` of the table in page `t`.
abbrev pub slot : ℕ → ℕ → ℕ
slot t i = t * 4096 + 8 * i

-- What each page holds: 0 for no table, 1 for a table of pages, up to 4 for the root.
abbrev pub Kinds : Type 0
Kinds = ℕ → ℕ

-- A present entry of a table above the lowest level points to a table of the next level, and lets
-- writes and users through; no two such entries point to the same table.
pub record IsTree (m : Words) (kind : Kinds) : Type 0 where
  pub points :
      (t i : ℕ)
      → 2 ≤ kind t
      → i < 512
      → is_present (m (slot t i)) ≡ true
      → kind (m (slot t i) / 4096) + 1 ≡ kind t
  pub allows :
      (t i : ℕ) → 2 ≤ kind t → i < 512 → is_present (m (slot t i)) ≡ true → m (slot t i) % 8 ≡ 7
  pub apart :
      (t i t' i' : ℕ)
      → 2 ≤ kind t
      → 2 ≤ kind t'
      → i < 512
      → i' < 512
      → is_present (m (slot t i)) ≡ true
      → is_present (m (slot t' i')) ≡ true
      → m (slot t i) / 4096 ≡ m (slot t' i') / 4096
      → (t ≡ t') × (i ≡ i')

-- The walk from the table in page `t`, an index for each level: the frame at its end, 0 if an entry
-- is not present.
unfoldable pub walk : Words → ℕ → List ℕ → ℕ
walk m t [] = t * 4096
walk m t (i ∷ is) =
    let below = walk m (m (slot t i) / 4096) is in if is_present (m (slot t i)) then below else 0

abbrev pub indices : ℕ → List ℕ
indices virt = pml4_idx virt ∷ pdpt_idx virt ∷ pd_idx virt ∷ pt_idx virt ∷ []

-- `vmm_get_phys` is the walk over the four indices of an address.
pub get_phys-walk :
    (m : Words) (root virt : ℕ) → vmm_get_phys m (root * 4096) virt ≡ walk m root (indices virt)
unfolding vmm_get_phys walk
get_phys-walk m root virt = refl

-- The walk depends on the page of the address alone.
pub get_phys_same_page :
    (m : Words) (root a b : ℕ)
    → a / 4096 % 2 ^ 36 ≡ b / 4096 % 2 ^ 36
    → vmm_get_phys m root a ≡ vmm_get_phys m root b
unfolding vmm_get_phys
get_phys_same_page m root a b e =
    let e₄ : pml4_idx a ≡ pml4_idx b = omega (arith, e) in
    let e₃ : pdpt_idx a ≡ pdpt_idx b = omega (arith, e) in
    let e₂ : pd_idx a ≡ pd_idx b = omega (arith, e) in
    let e₁ : pt_idx a ≡ pt_idx b = omega (arith, e) in rw (e₄, e₃, e₂, e₁) refl

abbrev pub IsIndex : ℕ → Type 0
IsIndex i = i < 512

pub clear_words-get :
    (n : ℕ) (m : Words) (a b : ℕ)
    → clear_words n m a b
      ≡ (if leb a b && (ltb b (a + 8 * n) && ((b + 7 * a) % 8 == 0)) then 0 else m b)
unfolding clear_words
clear_words-get zero m a b = ground arith
clear_words-get (suc n) m a b = ground (arith, clear_words-get n (write_word m a 0) (a + 8) b)
