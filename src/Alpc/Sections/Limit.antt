-- ===== src/Alpc/Sections/Limit.antt =====
-- How many shared sections there are: the table has 64 slots, and none is ever given back.
use barium.Prelude.{
  ℕ, zero, suc, ◌+◌, ◌^◌, ◌<◌, ◌≡◌, refl, ap₂, ◌∙◌, Option, none, some, List, [], ◌∷◌, ◌==◌, ltb,
  leb, ◌&&◌, if◌then◌else◌, length, replicate, arith,
}
use barium.Pmm.{Pmm, u64, pmm_alloc}
use barium.Alpc.Sections.Table.{IsTable, Fills, fill_slot-Fills, Finds, find_section-Finds}
use barium.Alpc.Sections.{
  Section, Sections, free_section, alpc_init, fill_slot, find_section, alpc_create_section,
  alpc_map_section,
}

-- The calls that threads make for sections of one page, over time.
pub data SectionCall : Type 0 where
  creates : (tid : ℕ) → SectionCall
  maps : (section_id : ℕ) → SectionCall

-- What each call returns: an id, or an address.
unfoldable pub run_sections : Pmm → Sections → List SectionCall → List ℕ
run_sections pmm s [] = []
run_sections pmm s (creates tid ∷ cs) =
    let (id, pmm', s') = alpc_create_section tid pmm s 4096 in id ∷ run_sections pmm' s' cs
run_sections pmm s (maps id ∷ cs) =
    let (virt, calls, s') = alpc_map_section s id in virt ∷ run_sections pmm s' cs

-- What mapping an id returns after `k` creations, when `v` is the next address, and the next one
-- then: 0 is the id of a slot that is free.
abbrev pub mapped_at : (k v id : ℕ) → ℕ × ℕ
mapped_at k v id =
    if id == 0
    then (if ltb k 64 then v else 0, v)
    else if leb id k && leb id 64
    then (v, u64 (v + 4096))
    else (0, v)

-- The specification, after `k` creations and with `v` the next address: the ids count up to 64.
unfoldable pub answers : (k v : ℕ) → List SectionCall → List ℕ
answers k v [] = []
answers k v (creates tid ∷ cs) = (if ltb k 64 then k + 1 else 0) ∷ answers (k + 1) v cs
answers k v (maps id ∷ cs) = let (virt, v') = mapped_at k v id in virt ∷ answers k v' cs

-- The state after `k` creations.
record Shares (k v : ℕ) (s : Sections) : Type 0 where
  slots : length s.sections ≡ 64
  table : IsTable 0 k s.sections
  next : s.next_section_id ≡ k + 1
  at : s.next_section_virt ≡ v
  fits : v < 2 ^ 64

-- A creation, by what became of the table.
create-Shares :
    (k v phys : ℕ) (pmm' : Pmm) (s : Sections) (x : Section) (o : Option (List Section))
    → Shares k v s
    → k + 2 < 2 ^ 64
    → x.id ≡ k + 1
    → Fills 0 k s.sections o
    → let s' : Sections = record s { next_section_id = u64 (x.id + 1) } in
      let made : ℕ × Pmm × Sections = elim o [
        | none ↦ (0, pmm', s')
        | some table ↦ (x.id, pmm', record s' { sections = table })
      ] in
      (made.0 ≡ (if ltb k 64 then k + 1 else 0)) × Shares (k + 1) v made.2
create-Shares k v phys pmm' s x none h small id f = (
  ground (arith, f.0, h.slots),
  record { slots = h.slots; table = f.1; next = omega (arith, id); at = h.at; fits = h.fits },
)
create-Shares k v phys pmm' s x (some xs) h small id f = (
  ground (arith, f.0, h.slots),
  record { slots = f.1 ∙ h.slots; table = f.2; next = omega (arith, id); at = h.at; fits = h.fits },
)

alpc_create_section-Shares :
    (tid k v : ℕ) (pmm : Pmm) (s : Sections)
    → Shares k v s
    → k + 2 < 2 ^ 64
    → let (id, pmm', s') = alpc_create_section tid pmm s 4096 in
      (id ≡ (if ltb k 64 then k + 1 else 0)) × Shares (k + 1) v s'
unfolding alpc_create_section
alpc_create_section-Shares tid k v pmm s h small =
    let x : Section = record {
      id = s.next_section_id;
      phys_addr = (pmm_alloc pmm 1).0;
      size = 4096;
      owner_tid = tid;
    } in
    create-Shares k v 0 (pmm_alloc pmm 1).1 s x (fill_slot s.sections x) h small h.next
      (fill_slot-Fills s.sections x 0 k (omega arith) h.next refl h.table)

-- A mapping, by what the lookup found.
map-Shares :
    (k v id : ℕ) (s : Sections) (calls : Section → List (ℕ × ℕ)) (o : Option Section)
    → Shares k v s
    → Finds 0 k 64 id o
    → let made : ℕ × List (ℕ × ℕ) × Sections = elim o [
      | none ↦ (0, [], s)
      | some x ↦ (
        s.next_section_virt,
        calls x,
        record s { next_section_virt = u64 (s.next_section_virt + x.size) },
      )
    ] in
      (made.0 ≡ (mapped_at k v id).0) × Shares k (mapped_at k v id).1 made.2
map-Shares k v id s calls none h f = (
  ground arith,
  record {
    slots = h.slots;
    table = h.table;
    next = h.next;
    at = ground (arith, h.at);
    fits = ground (arith, h.fits);
  },
)
map-Shares k v id s calls (some x) h f = (
  ground (arith, h.at),
  record {
    slots = h.slots;
    table = h.table;
    next = h.next;
    at = ground (arith, h.at, h.fits);
    fits = ground (arith, h.fits);
  },
)

alpc_map_section-Shares :
    (k v id : ℕ) (s : Sections)
    → Shares k v s
    → let (virt, calls, s') = alpc_map_section s id in
      (virt ≡ (mapped_at k v id).0) × Shares k (mapped_at k v id).1 s'
unfolding alpc_map_section
alpc_map_section-Shares k v id s h =
    let found = find_section-Finds s.sections 0 k id (ground arith) h.table (omega arith) in
    map-Shares k v id s _ (find_section s.sections id) h (rw h.slots at found)

run_sections_after :
    (cs : List SectionCall) (k v : ℕ) (pmm : Pmm) (s : Sections)
    → Shares k v s
    → k + length cs + 2 < 2 ^ 64
    → run_sections pmm s cs ≡ answers k v cs
unfolding run_sections answers
run_sections_after [] k v pmm s h small = refl
run_sections_after (creates tid ∷ cs) k v pmm s h small =
    let made = alpc_create_section-Shares tid k v pmm s h (omega (arith, small)) in
    ap₂ (λ r rs. r ∷ rs) made.0 (run_sections_after cs (k + 1) v _ _ made.1 (omega (arith, small)))
run_sections_after (maps id ∷ cs) k v pmm s h small =
    let got = alpc_map_section-Shares k v id s h in
    let later = run_sections_after cs k (mapped_at k v id).1 pmm _ got.1 (omega (arith, small)) in
    ap₂ (λ r rs. r ∷ rs) got.0 later

init_table : (n j : ℕ) → IsTable j 0 (replicate n free_section)
init_table zero j = tt
init_table (suc n) j = (ground arith, ground arith, init_table n (j + 1))

-- For every sequence of calls, by any threads, that create sections of one page and map sections,
-- from the start on, whatever memory there is, and while ids do not wrap: the creations return 1 to
-- 64 and from then on 0, as no section is given back. Mapping an id that was returned gives the next
-- page of addresses. Mapping any other id gives the null pointer, but for 0 while a slot is free, which
-- gives an address without taking it.
pub run_sections-answers :
    (cs : List SectionCall) (pmm : Pmm)
    → length cs + 2 < 2 ^ 64
    → run_sections pmm alpc_init cs ≡ answers 0 0x80_0000_0000 cs
unfolding alpc_init
run_sections-answers cs pmm small =
    run_sections_after cs 0 0x80_0000_0000 pmm alpc_init
      (record { slots = refl; table = init_table 64 0; next = refl; at = refl; fits = omega arith })
      (omega (arith, small))
