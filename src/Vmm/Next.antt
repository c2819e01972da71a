-- ===== src/Vmm/Next.antt =====
-- `next_table`: the table behind an entry, there or made.
use barium.Prelude.{
  ℕ, ◌+◌, ◌-◌, ◌*◌, ◌/◌, ◌≤◌, ◌<◌, ◌≡◌, ◌≢◌, refl, sym, ◌∙◌, ap, true, false, ◌==◌, ◌&&◌, List, [],
  ◌∷◌, arith, Bool-cases, inl, inr, length, All,
}
use barium.Pmm.{Pmm, bitmap_test, pmm_alloc}
use barium.Pmm.Alloc.{IsPmm}
use barium.Pmm.One.{pages_left, TookOne, pmm_alloc_one}
use barium.Vmm.{Words, Vmm, is_present, frame, next_table}
use barium.Vmm.Tables.{slot, Kinds, IsTree, walk, IsIndex}
use barium.Vmm.Link.{linked, with_kind, linked_here, linked_else, linked-IsTree, walk-linked}

-- A tree of page tables, each in a page that is taken.
pub record IsVmm (s : Vmm) (kind : Kinds) : Type 0 where
  pub tree : IsTree s.words kind
  pub pmm : IsPmm s.pmm
  pub tables_taken : (t : ℕ) → kind t ≢ 0 → bitmap_test s.pmm.bitmap t ≡ true

-- What keeps between two states: the tables, their present entries, and where every walk leads.
pub record Grows (s : Vmm) (kind : Kinds) (s' : Vmm) (kind' : Kinds) : Type 0 where
  pub kinds : (t : ℕ) → kind t ≢ 0 → kind' t ≡ kind t
  pub entries :
      (t i : ℕ)
      → 2 ≤ kind t
      → i < 512
      → is_present (s.words (slot t i)) ≡ true
      → s'.words (slot t i) ≡ s.words (slot t i)
  pub walks :
      (is : List ℕ) (t : ℕ)
      → kind t ≡ length is
      → All IsIndex is
      → walk s'.words t is ≡ walk s.words t is

pub Grows-refl : (s : Vmm) (kind : Kinds) → Grows s kind s kind
Grows-refl s kind = record {
  kinds = λ t ne. refl;
  entries = λ t i h lt here. refl;
  walks = λ is t e h. refl;
}

walks_on :
    (is : List ℕ) (t : ℕ) (s : Vmm) (kind : Kinds) (s' : Vmm) (kind' : Kinds) (s'' : Vmm)
    → kind t ≡ length is
    → (kind t ≢ 0 → kind' t ≡ kind t)
    → walk s'.words t is ≡ walk s.words t is
    → (kind' t ≡ length is → walk s''.words t is ≡ walk s'.words t is)
    → walk s''.words t is ≡ walk s.words t is
unfolding walk
walks_on [] t s kind s' kind' s'' e k w later = refl
walks_on (i ∷ is) t s kind s' kind' s'' e k w later =
    let ne : kind t ≢ 0 = omega (arith, e) in later (k ne ∙ e) ∙ w

pub Grows-trans :
    (s : Vmm) (kind : Kinds) (s' : Vmm) (kind' : Kinds) (s'' : Vmm) (kind'' : Kinds)
    → Grows s kind s' kind'
    → Grows s' kind' s'' kind''
    → Grows s kind s'' kind''
Grows-trans s kind s' kind' s'' kind'' g h = record {
  kinds = λ t ne. let e = g.kinds t ne in h.kinds t (λ z. ne (sym e ∙ z)) ∙ e;
  entries = λ t i high lt here.
      let e = g.entries t i high lt here in
      let k = g.kinds t (omega arith) in h.entries t i (omega (arith, k)) lt (rw e here) ∙ e;
  walks = λ is t e hs.
      walks_on is t s kind s' kind' s'' e (g.kinds t) (g.walks is t e hs)
        (λ e'. h.walks is t e' hs);
}

-- What `next_table` gives for the entry `i` of the table in page `t`.
pub record Next (s : Vmm) (kind : Kinds) (t i : ℕ) (address : ℕ) (s' : Vmm) : Type 0 where
  pub page : ℕ
  pub kind' : Kinds
  pub at : address ≡ page * 4096
  pub valid : IsVmm s' kind'
  pub grows : Grows s kind s' kind'
  pub still_taken : (q : ℕ) → bitmap_test s.pmm.bitmap q ≡ true → bitmap_test s'.pmm.bitmap q ≡ true
  pub no_table : (q : ℕ) → bitmap_test s.pmm.bitmap q ≡ true → kind q ≡ 0 → kind' q ≡ 0
  pub present : is_present (s'.words (slot t i)) ≡ true
  pub target : s'.words (slot t i) / 4096 ≡ page
  pub level : kind' page + 1 ≡ kind t
  pub left : pages_left s.pmm ≤ pages_left s'.pmm + 1

Next-present :
    (s : Vmm) (kind : Kinds) (t i : ℕ)
    → IsVmm s kind
    → 2 ≤ kind t
    → i < 512
    → is_present (s.words (slot t i)) ≡ true
    → Next s kind t i (frame (s.words (slot t i))) s
Next-present s kind t i v high hi here = record {
  page = s.words (slot t i) / 4096;
  kind' = kind;
  at = refl;
  valid = v;
  grows = Grows-refl s kind;
  still_taken = λ q e. e;
  no_table = λ q e z. z;
  present = here;
  target = refl;
  level = v.tree.points t i high hi here;
  left = omega arith;
}

elsewhere :
    (m : Words) (t i u j : ℕ)
    → is_present (m (slot t i)) ≡ false
    → is_present (m (slot u j)) ≡ true
    → ((u == t) && (j == i)) ≡ false
elsewhere m t i u j missing here = elim (Bool-cases ((u == t) && (j == i))) [
  | inr away ↦ away
  | inl at ↦
      let eu : u ≡ t = ground arith in
      let ej : j ≡ i = ground arith in
      let here' : is_present (m (slot t i)) ≡ true = rw (eu, ej) at here in cc
]

Next-made :
    (s : Vmm) (kind : Kinds) (t i k : ℕ) (address : ℕ) (pmm : Pmm)
    → IsVmm s kind
    → k + 1 ≡ kind t
    → 1 ≤ k
    → i < 512
    → is_present (s.words (slot t i)) ≡ false
    → (o : TookOne s.pmm address pmm)
    → let m = linked s.words o.page t i in
      Next s kind t i (frame (m (slot t i))) (record { words = m; pmm = pmm })
Next-made s kind t i k address pmm v ek low hi missing o =
    let f = o.page in
    let new : kind f ≡ 0 = elim (Bool-cases (kind f == 0)) [
      | inl z ↦ ground arith
      | inr nz ↦ let taken = v.tables_taken f (ground arith) in let free = o.was_free in absurd (cc)
    ] in
    let other : t ≢ f = λ e. let z : kind t ≡ 0 = ap kind e ∙ new in absurd (omega (arith, z)) in
    let word = linked_here s.words f t i other hi in
    record {
      page = f;
      kind' = with_kind kind f k;
      at = rw word (omega arith);
      valid = record {
        tree = linked-IsTree s.words kind f t i v.tree new (omega (arith, ek)) hi missing k ek;
        pmm = o.valid;
        tables_taken = λ q ne. elim (Bool-cases (q == f)) [
          | inl same ↦ ground (arith, o.marked q)
          | inr old ↦ ground (arith, o.marked q, v.tables_taken q)
        ];
      };
      grows = record {
        kinds = λ q ne. let old : q ≢ f = λ e. ne (ap kind e ∙ new) in ground arith;
        entries = λ u j hk hj here.
            let old : u ≢ f =
              λ e. let z : kind u ≡ 0 = ap kind e ∙ new in absurd (omega (arith, z, hk)) in
            linked_else s.words f t i other hi u j old hj (elsewhere s.words t i u j missing here);
        walks = λ is u e hs.
            walk-linked s.words kind f t i v.tree new (omega (arith, ek)) hi missing is u e hs;
      };
      still_taken = λ q e. ground (arith, o.marked q);
      no_table = λ q e z. elim (Bool-cases (q == f)) [
        | inl same ↦
            let at : q ≡ f = ground arith in
            let taken : bitmap_test s.pmm.bitmap f ≡ true = rw at at e in
            let free = o.was_free in absurd (cc)
        | inr old ↦ ground arith
      ];
      present = rw word (ground arith);
      target = rw word (omega arith);
      level = ground (arith, ek);
      left = omega (arith, o.left);
    }

-- From a table above the lowest level, `next_table` leads to a table of the next level, while two
-- pages are left.
pub next_table-Next :
    (s : Vmm) (kind : Kinds) (t i : ℕ)
    → IsVmm s kind
    → 2 ≤ kind t
    → i < 512
    → 1 < pages_left s.pmm
    → let (address, s') = next_table s (slot t i) in Next s kind t i address s'
unfolding next_table
next_table-Next s kind t i v high hi room = elim (Bool-cases (is_present (s.words (slot t i)))) [
  | inl here ↦ rw here (Next-present s kind t i v high hi here)
  | inr missing ↦
      let o = pmm_alloc_one s.pmm v.pmm room in
      let made =
        Next-made s kind t i (kind t - 1) _ (pmm_alloc s.pmm 1).1 v (omega arith) (omega arith) hi
          missing o in
      rw (missing, o.address) made
]
