-- ===== src/Alpc/Sections/Shared.antt =====
-- The table of shared sections: a section is mapped as it was created.
use barium.Prelude.{
  ℕ, zero, suc, ◌+◌, ◌*◌, ◌/◌, ◌^◌, ◌<◌, ◌≡◌, ◌≢◌, refl, sym, ap, ◌∙◌, true, false, Option, none,
  some, List, [], ◌∷◌, ◌==◌, ltb, length, get_or, arith, Bool-cases, inl, inr, All,
}
use mathlib.Core.Path.{subst}
use barium.Pmm.{Pmm, u64, pmm_alloc}
use barium.Alpc.Sections.{
  Section, Sections, fill_slot, find_section, map_pages, alpc_create_section, alpc_map_section,
}

-- Ids are handed out in order; the free slots are blank; the counters have not wrapped.
pub record IsSections (s : Sections) : Type 0 where
  pub handed_out : All (λ x. x.id < s.next_section_id) s.sections
  pub blank : All (λ x. x.id ≡ 0 → x.size ≡ 0) s.sections
  pub ids_left : s.next_section_id < 2 ^ 64
  pub space_left : s.next_section_virt < 2 ^ 64

-- What filling a slot does to the lookups, when the id is new.
abbrev Filled : List Section → Section → Option (List Section) → Type 0
Filled ss x none = Unit
Filled ss x (some ss') =
    (find_section ss' x.id ≡ some x)
    × ((k : ℕ) → k ≢ 0 → k ≢ x.id → find_section ss' k ≡ find_section ss k)

Filled-behind :
    (s : Section) (ss : List Section) (x : Section) (o : Option (List Section))
    → s.id ≢ x.id
    → Filled ss x o
    → Filled (s ∷ ss) x (elim o [ none ↦ none | some ss' ↦ some (s ∷ ss') ])
unfolding find_section
Filled-behind s ss x none ne h = tt
Filled-behind s ss x (some ss') ne h = (ground (arith, h.0), λ k nz other. ground (arith, h.1 k))

fill_slot-Filled :
    (ss : List Section) (x : Section) → All (λ s. s.id < x.id) ss → Filled ss x (fill_slot ss x)
unfolding fill_slot find_section
fill_slot-Filled [] x small = tt
fill_slot-Filled (s ∷ ss) x small = elim (Bool-cases (s.id == 0)) [
  | inl free ↦ rw free (ground arith, λ k nz other. ground arith)
  | inr taken ↦ rw taken (
      Filled-behind s ss x (fill_slot ss x) (omega (arith, small.0))
        (fill_slot-Filled ss x small.1))
]

get_or-cons :
    {A : Type 0} (d : A) (n : ℕ) (g : ℕ → A) (x : A) (xs : List A)
    → x ≡ g 0
    → ((k : ℕ) → k < n → get_or xs k d ≡ g (suc k))
    → (k : ℕ) → k < suc n
    → get_or (x ∷ xs) k d ≡ g k
get_or-cons d n g x xs first others zero small = first
get_or-cons d n g x xs first others (suc k) small = others k (omega arith)

-- The addresses that the page of an index has.
abbrev page_at : ℕ → ℕ → ℕ → ℕ × ℕ
page_at virt phys k = (u64 (virt + k * 4096), u64 (phys + k * 4096))

-- The calls for `n` pages in order, from the one of index `i` on.
abbrev Lists : ℕ → ℕ → ℕ → ℕ → List (ℕ × ℕ) → Type 0
Lists n i virt phys calls =
    (length calls ≡ n) × ((k : ℕ) → k < n → get_or calls k (0, 0) ≡ page_at virt phys (i + k))

Lists-cons :
    (n i virt phys : ℕ) (calls : List (ℕ × ℕ))
    → Lists n (i + 1) virt phys calls
    → Lists (suc n) i virt phys (page_at virt phys i ∷ calls)
Lists-cons n i virt phys calls h = (
  ap suc h.0,
  get_or-cons (0, 0) n (λ k. page_at virt phys (i + k)) (page_at virt phys i) calls
      (let e : i ≡ i + 0 = omega arith in ap (page_at virt phys) e)
      (λ k small.
        let e : i + 1 + k ≡ i + suc k = omega arith in h.1 k small ∙ ap (page_at virt phys) e),
)

map_pages-Lists :
    (f n i virt phys : ℕ)
    → n < f
    → Lists n i virt phys (map_pages f ((i + n) * 4096) virt phys (i * 4096))
unfolding map_pages
map_pages-Lists zero n i virt phys lt = absurd (omega arith)
map_pages-Lists (suc f) zero i virt phys lt =
    let e : ltb (i * 4096) ((i + 0) * 4096) ≡ false = ground arith in
    rw e (refl, λ k small. absurd (omega arith))
map_pages-Lists (suc f) (suc n) i virt phys lt =
    let go : ltb (i * 4096) ((i + suc n) * 4096) ≡ true = ground arith in
    let next : i * 4096 + 4096 ≡ (i + 1) * 4096 = omega arith in
    let end : (i + suc n) * 4096 ≡ (i + 1 + n) * 4096 = omega arith in
    let e : map_pages (suc f) ((i + suc n) * 4096) virt phys (i * 4096)
        ≡ page_at virt phys i ∷ map_pages f ((i + 1 + n) * 4096) virt phys ((i + 1) * 4096) =
      rw (go, next, end) refl in
    subst (Lists (suc n) i virt phys) (sym e)
      (Lists-cons n i virt phys _ (map_pages-Lists f n (i + 1) virt phys (omega arith)))

-- What mapping the section does that a creation made, for `pages` pages at `phys`.
abbrev pub Mapped : Sections → (pages phys : ℕ) → ℕ × Pmm × Sections → Type 0
Mapped s pages phys (id, pmm', s') =
    let (virt, calls, s'') = alpc_map_section s' id in
    (virt ≡ s.next_section_virt)
    × Lists pages 0 virt phys calls
    × (s''.next_section_virt ≡ u64 (virt + pages * 4096))
    × ((other : ℕ)
        → other ≢ 0
        → other ≢ id
        → find_section s'.sections other ≡ find_section s.sections other)

map_section_found :
    (s : Sections) (id : ℕ) (x : Section)
    → find_section s.sections id ≡ some x
    → alpc_map_section s id ≡ (
      s.next_section_virt,
      map_pages (x.size / 4096 + 1) x.size s.next_section_virt x.phys_addr 0,
      record s { next_section_virt = u64 (s.next_section_virt + x.size) },
    )
unfolding alpc_map_section
map_section_found s id x e = rw (alpc_map_section, e) refl

created-Mapped :
    (s : Sections) (pmm' : Pmm) (x : Section) (pages phys next : ℕ) (o : Option (List Section))
    → x.size ≡ pages * 4096
    → x.phys_addr ≡ phys
    → Filled s.sections x o
    → let made : ℕ × Pmm × Sections = elim o [
      | none ↦ (0, pmm', record s { next_section_id = next })
      | some table ↦ (x.id, pmm', record s { next_section_id = next; sections = table })
    ] in
      made.0 ≢ 0 → Mapped s pages phys made
created-Mapped s pmm' x pages phys next none size at h made = absurd (made refl)
created-Mapped s pmm' x pages phys next (some table) size at h made =
    let s' : Sections = record s { next_section_id = next; sections = table } in
    let rounds : x.size / 4096 + 1 ≡ pages + 1 = omega (arith, size) in
    let virt = s.next_section_virt in
    let none_before : 0 + pages ≡ pages = omega arith in
    let lists : Lists pages 0 virt phys (map_pages (pages + 1) (pages * 4096) virt phys 0) =
      subst (λ t. Lists pages 0 virt phys (map_pages (pages + 1) (t * 4096) virt phys 0))
        none_before (map_pages-Lists (pages + 1) pages 0 virt phys (omega arith)) in
    rw (map_section_found s' x.id x h.0) (refl, rw (rounds, size, at) lists, rw size refl, h.1)

find_section_blank :
    (ss : List Section) (x : Section)
    → All (λ x. x.id ≡ 0 → x.size ≡ 0) ss
    → find_section ss 0 ≡ some x
    → x.size ≡ 0
unfolding find_section
find_section_blank [] x blank e = absurd (ground arith)
find_section_blank (s ∷ ss) x blank e = elim (Bool-cases (s.id == 0)) [
  | inl free ↦ ground (arith, blank.0, e)
  | inr taken ↦ find_section_blank ss x blank.1 (ground arith)
]

-- A created section is mapped at the next free addresses, page by page onto the memory that
-- `pmm_alloc` gave for it; the next one follows behind it; and the sections that were there before
-- are found as they were.
pub alpc_map_section-alpc_create_section :
    (tid : ℕ) (pmm : Pmm) (s : Sections) (size : ℕ)
    → IsSections s
    → (alpc_create_section tid pmm s size).0 ≢ 0
    → let pages = u64 (size + 4095) / 4096 in
      Mapped s pages (pmm_alloc pmm pages).0 (alpc_create_section tid pmm s size)
unfolding alpc_create_section
alpc_map_section-alpc_create_section tid pmm s size v made =
    let pages = u64 (size + 4095) / 4096 in
    let x : Section = record {
      id = s.next_section_id;
      phys_addr = (pmm_alloc pmm pages).0;
      size = pages * 4096;
      owner_tid = tid;
    } in
    created-Mapped s (pmm_alloc pmm pages).1 x pages (pmm_alloc pmm pages).0 _
      (fill_slot s.sections x) refl refl (fill_slot-Filled s.sections x v.handed_out) made

-- The id 0 stands for a free slot, and asking to map it answers with an address where nothing is
-- mapped while there is one.
pub alpc_map_section_zero :
    (s : Sections) (x : Section)
    → IsSections s
    → find_section s.sections 0 ≡ some x
    → alpc_map_section s 0 ≡ (s.next_section_virt, [], s)
unfolding map_pages
alpc_map_section_zero s x v e =
    let blank : x.size ≡ 0 = find_section_blank s.sections x v.blank e in
    let same : u64 (s.next_section_virt + 0) ≡ s.next_section_virt = omega (arith, v.space_left) in
    rw (map_section_found s 0 x e, blank, same) refl
