-- ===== src/Vmm/Contract.antt =====
-- What `vmm_map` promises of `vmm_get_phys`.
use Prim.Native.Nat.{bit_or, bit_or-bitwise}
use barium.Prelude.{
  ℕ, ◌+◌, ◌*◌, ◌/◌, ◌%◌, ◌^◌, ◌≤◌, ◌<◌, ◌≡◌, ◌≢◌, refl, sym, ◌∙◌, ap, true, [], ◌∷◌, arith, length,
  All, get_or,
}
use barium.Pmm.{bitmap_test}
use barium.Pmm.One.{pages_left}
use barium.Vmm.{
  Vmm, write_word, is_present, frame, with_flags, next_table, vmm_map, vmm_get_phys, pml4_idx,
  pdpt_idx, pd_idx, pt_idx,
}
use barium.Vmm.Tables.{slot, Kinds, IsIndex, indices, get_phys-walk}
use barium.Vmm.Next.{IsVmm, Grows, Grows-trans, next_table-Next}
use barium.Vmm.Lookup.{Reaches, written, walk-written, walk-written_ne, written-IsTree}

-- The page that an address of 48 bits lies in.
abbrev pub page_number : ℕ → ℕ
page_number virt = virt / 4096 % 2 ^ 36

-- A mapped page: the tables are well formed and of the kinds they were, at most three pages were
-- taken for tables, none of them a page that was taken before, the address leads to the frame, and
-- every other page leads where it did.
pub record Mapped (s : Vmm) (kind : Kinds) (root virt phys : ℕ) (s' : Vmm) : Type 0 where
  pub kind' : Kinds
  pub valid : IsVmm s' kind'
  pub kinds : (t : ℕ) → kind t ≢ 0 → kind' t ≡ kind t
  pub still_taken : (q : ℕ) → bitmap_test s.pmm.bitmap q ≡ true → bitmap_test s'.pmm.bitmap q ≡ true
  pub no_table : (q : ℕ) → bitmap_test s.pmm.bitmap q ≡ true → kind q ≡ 0 → kind' q ≡ 0
  pub left : pages_left s.pmm ≤ pages_left s'.pmm + 3
  pub here : vmm_get_phys s'.words (root * 4096) virt ≡ frame phys
  pub others :
      (other : ℕ)
      → page_number other ≢ page_number virt
      → vmm_get_phys s'.words (root * 4096) other ≡ vmm_get_phys s.words (root * 4096) other

entry_word :
    (phys flags : ℕ)
    → flags < 4096
    → is_present flags ≡ true
    → let w = with_flags (frame phys) flags in (frame w ≡ frame phys) × (is_present w ≡ true)
entry_word phys flags small odd =
    let e : frame phys % 4096 ≡ 0 = omega arith in
    let zero_or : bit_or 0 flags ≡ flags = bit_or-bitwise 0 flags in
    rw (e, zero_or) (omega arith, ground arith)

same_page : (a b : ℕ) → indices a ≡ indices b → page_number a ≡ page_number b
same_page a b e =
    let e₀ = ap (λ l. get_or l 0 0) e in
    let e₁ = ap (λ l. get_or l 1 0) e in
    let e₂ = ap (λ l. get_or l 2 0) e in
    let e₃ = ap (λ l. get_or l 3 0) e in omega (arith, e₀, e₁, e₂, e₃)

indices-IsIndex : (virt : ℕ) → All IsIndex (indices virt)
indices-IsIndex virt = (omega arith, (omega arith, (omega arith, (omega arith, tt))))

-- The state behind the three tables, and the table of pages.
pub record Path3 (s : Vmm) (kind : Kinds) (root virt : ℕ) (pt_address : ℕ) (s' : Vmm) : Type 0 where
  pub page : ℕ
  pub kind' : Kinds
  pub at : pt_address ≡ page * 4096
  pub valid : IsVmm s' kind'
  pub grows : Grows s kind s' kind'
  pub still_taken : (q : ℕ) → bitmap_test s.pmm.bitmap q ≡ true → bitmap_test s'.pmm.bitmap q ≡ true
  pub no_table : (q : ℕ) → bitmap_test s.pmm.bitmap q ≡ true → kind q ≡ 0 → kind' q ≡ 0
  pub reaches : Reaches s'.words (pml4_idx virt ∷ pdpt_idx virt ∷ pd_idx virt ∷ []) root page
  pub lowest : kind' page ≡ 1
  pub left : pages_left s.pmm ≤ pages_left s'.pmm + 3

-- An entry that one step found is there after the next.
kept_entry :
    (s : Vmm) (kind : Kinds) (t i page : ℕ) (s' : Vmm) (kind' : Kinds)
    → 2 ≤ kind t
    → i < 512
    → Grows s kind s' kind'
    → is_present (s.words (slot t i)) ≡ true
    → s.words (slot t i) / 4096 ≡ page
    → (is_present (s'.words (slot t i)) ≡ true) × (s'.words (slot t i) / 4096 ≡ page)
kept_entry s kind t i page s' kind' high hi g here target =
    rw (g.entries t i high hi here) (here, target)

pub three_tables :
    (s : Vmm) (kind : Kinds) (root virt : ℕ)
    → IsVmm s kind
    → kind root ≡ 4
    → 3 < pages_left s.pmm
    → let (pdpt, s₁) = next_table s (slot root (pml4_idx virt)) in
      let (pd, s₂) = next_table s₁ (pdpt + 8 * pdpt_idx virt) in
      let (pt, s₃) = next_table s₂ (pd + 8 * pd_idx virt) in Path3 s kind root virt pt s₃
three_tables s kind root virt v top room =
    let i₄ = pml4_idx virt in
    let i₃ = pdpt_idx virt in
    let i₂ = pd_idx virt in
    let n₁ = next_table-Next s kind root i₄ v (omega (arith, top)) (omega arith) (omega arith) in
    let s₁ = (next_table s (slot root i₄)).1 in
    let n₂ =
      next_table-Next s₁ n₁.kind' n₁.page i₃ n₁.valid (omega (arith, n₁.level, top)) (omega arith)
        (omega (arith, n₁.left)) in
    let s₂ = (next_table s₁ (slot n₁.page i₃)).1 in
    let n₃ =
      next_table-Next s₂ n₂.kind' n₂.page i₂ n₂.valid (omega (arith, n₂.level, n₁.level, top))
        (omega arith) (omega (arith, n₁.left, n₂.left)) in
    let s₃ = (next_table s₂ (slot n₂.page i₂)).1 in
    let top₁ = n₁.grows.kinds root (omega (arith, top)) in
    let top₂ = n₂.grows.kinds root (omega (arith, top, top₁)) in
    let mid₂ = n₂.grows.kinds n₁.page (omega (arith, n₁.level, top)) in
    let a =
      kept_entry s₁ n₁.kind' root i₄ n₁.page s₂ n₂.kind' (omega (arith, top, top₁)) (omega arith)
        n₂.grows n₁.present n₁.target in
    let a' =
      kept_entry s₂ n₂.kind' root i₄ n₁.page s₃ n₃.kind' (omega (arith, top, top₁, top₂))
        (omega arith) n₃.grows a.0 a.1 in
    let b =
      kept_entry s₂ n₂.kind' n₁.page i₃ n₂.page s₃ n₃.kind' (omega (arith, n₁.level, top, mid₂))
        (omega arith) n₃.grows n₂.present n₂.target in
    rw (n₁.at, n₂.at)
      (record {
        page = n₃.page;
        kind' = n₃.kind';
        at = n₃.at;
        valid = n₃.valid;
        grows =
            Grows-trans s kind s₁ n₁.kind' s₃ n₃.kind' n₁.grows
              (Grows-trans s₁ n₁.kind' s₂ n₂.kind' s₃ n₃.kind' n₂.grows n₃.grows);
        still_taken = λ q e. n₃.still_taken q (n₂.still_taken q (n₁.still_taken q e));
        no_table = λ q e z.
            let e₁ = n₁.still_taken q e in
            n₃.no_table q (n₂.still_taken q e₁) (n₂.no_table q e₁ (n₁.no_table q e z));
        reaches = (
          omega arith,
          a'.0,
          rw (a'.1) (omega arith, b.0, rw (b.1) (omega arith, n₃.present, n₃.target)),
        );
        lowest = omega (arith, n₃.level, n₂.level, n₁.level, top);
        left = omega (arith, n₁.left, n₂.left, n₃.left);
      })

last_entry :
    (s : Vmm) (kind : Kinds) (root virt phys flags pt : ℕ) (s' : Vmm)
    → kind root ≡ 4
    → flags < 4096
    → is_present flags ≡ true
    → Path3 s kind root virt pt s'
    → Mapped s kind root virt phys (record s' {
      words = write_word s'.words (pt + 8 * pt_idx virt) (with_flags (frame phys) flags);
    })
unfolding written
last_entry s kind root virt phys flags pt s' top small odd t =
    let word = entry_word phys flags small odd in
    let js = pml4_idx virt ∷ pdpt_idx virt ∷ pd_idx virt ∷ [] in
    let w = with_flags (frame phys) flags in
    let top' = t.grows.kinds root (omega (arith, top)) in
    let four : t.kind' root ≡ length js + 1 = omega (arith, top, top') in
    rw (t.at) (record {
      kind' = t.kind';
      valid = record {
        tree =
            written-IsTree s'.words t.kind' t.valid.tree t.page (pt_idx virt) w t.lowest
              (omega arith);
        pmm = t.valid.pmm;
        tables_taken = t.valid.tables_taken;
      };
      kinds = t.grows.kinds;
      still_taken = t.still_taken;
      no_table = t.no_table;
      left = t.left;
      here =
          get_phys-walk _ root virt
          ∙ walk-written s'.words t.kind' t.valid.tree t.page (pt_idx virt) w t.lowest (omega arith)
              js root four word.1 t.reaches
          ∙ word.0;
      others = λ other ne.
          get_phys-walk _ root other
          ∙ walk-written_ne s'.words t.kind' t.valid.tree t.page (pt_idx virt) w t.lowest
              (omega arith) js (indices other) root four t.reaches refl (indices-IsIndex other)
              (λ e. ne (same_page other virt e))
          ∙ t.grows.walks (indices other) root top (indices-IsIndex other)
          ∙ sym (get_phys-walk s.words root other);
    })

-- While four pages are left, `vmm_map` with flags below 4096 that say present maps the page of the
-- address to the frame: `vmm_get_phys` finds it, and for every other page it finds what it found
-- before. The page tables stay well formed, and at most three pages are taken for them.
pub vmm_map-Mapped :
    (s : Vmm) (kind : Kinds) (root virt phys flags : ℕ)
    → IsVmm s kind
    → kind root ≡ 4
    → 3 < pages_left s.pmm
    → flags < 4096
    → is_present flags ≡ true
    → Mapped s kind root virt phys (vmm_map s (root * 4096) virt phys flags)
unfolding vmm_map
vmm_map-Mapped s kind root virt phys flags v top room small odd =
    last_entry s kind root virt phys flags _ _ top small odd
      (three_tables s kind root virt v top room)
