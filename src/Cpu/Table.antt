-- ===== src/Cpu/Table.antt =====
-- The table of CPUs is the list of those that were added.
use barium.Prelude.{
  ℕ, zero, suc, ◌+◌, ◌≤◌, ◌<◌, ◌≡◌, refl, ◌∙◌, ap, Option, none, some, List, [], ◌∷◌, ◌++◌, ◌==◌,
  ltb, leb, true, if◌then◌else◌, get_or, set, length, length-set, length-append, length-replicate,
  get_or-append, get_or-set, arith, Bool-cases, inl, inr,
}
use mathlib.Core.List.{append_assoc, append-nil}
use barium.Cpu.{
  CpuEntry, CpuTable, no_entry, empty_table, cpu_init, find_cpu, cpu_get_by_id, cpu_get_by_index,
  cpu_get_count,
}

-- The CPUs start one after the other.
unfoldable pub init_all : List CpuEntry → CpuTable → Option CpuTable
init_all [] t = some t
init_all (c ∷ cs) t = elim (cpu_init t c.address c.cpu_id) [
  | none ↦ none
  | some t' ↦ init_all cs t'
]

-- The first CPU of a list with an id, and the one at an index.
unfoldable pub first_with : (id : ℕ) → List CpuEntry → Option CpuEntry
first_with id [] = none
first_with id (c ∷ cs) = let later = first_with id cs in if c.cpu_id == id then some c else later

unfoldable pub at_index : List CpuEntry → ℕ → Option CpuEntry
at_index [] i = none
at_index (c ∷ cs) zero = some c
at_index (c ∷ cs) (suc i) = at_index cs i

record Lists (t : CpuTable) (l : List CpuEntry) : Type 0 where
  room : length t.cpus ≡ 64
  counted : t.cpu_count_actual ≡ length l
  listed : (i : ℕ) → i < length l → get_or t.cpus i no_entry ≡ get_or l i no_entry

Lists-add :
    (t : CpuTable) (l : List CpuEntry) (c : CpuEntry)
    → length l < 64
    → Lists t l
    → Lists
        (record {
          cpus = set t.cpus t.cpu_count_actual c;
          cpu_count_actual = t.cpu_count_actual + 1;
        })
        (l ++ (c ∷ []))
Lists-add t l c small v = record {
  room = length-set t.cpus t.cpu_count_actual c ∙ v.room;
  counted = omega (arith, v.counted, length-append l (c ∷ []));
  listed = λ i lt. ground (
    arith,
    length-append l (c ∷ []),
    get_or-append l c i no_entry,
    get_or-set t.cpus t.cpu_count_actual i c no_entry,
    v.listed i,
    v.counted,
    v.room,
  );
}

init_all-Lists :
    (cs : List CpuEntry) (t : CpuTable) (l : List CpuEntry)
    → Lists t l
    → length (l ++ cs) ≤ 64
    → (t' : CpuTable) × (init_all cs t ≡ some t') × Lists t' (l ++ cs)
unfolding init_all cpu_init
init_all-Lists [] t l v room = (t, refl, rw (append-nil) v)
init_all-Lists (c ∷ cs) t l v room =
    let split = length-append l (c ∷ cs) in
    let fits : ltb t.cpu_count_actual 64 ≡ true = ground (arith, v.counted, split, room) in
    let more = append_assoc l (c ∷ []) cs in
    let (t', run, v') =
      init_all-Lists cs _ (l ++ (c ∷ [])) (Lists-add t l c (omega (arith, split, room)) v)
        (rw more room) in
    (t', rw (init_all, fits) run, rw more at v')

find_cpu-first_with :
    (l : List CpuEntry) (t : CpuTable) (id i : ℕ)
    → ((j : ℕ) → j < length l → get_or t.cpus (i + j) no_entry ≡ get_or l j no_entry)
    → find_cpu (length l) t id i ≡ first_with id l
unfolding find_cpu first_with
find_cpu-first_with [] t id i same = refl
find_cpu-first_with (c ∷ cs) t id i same =
    let e : i + 0 ≡ i = omega arith in
    let here : get_or t.cpus i no_entry ≡ c = rw e at (same 0 (omega arith)) in
    let later = find_cpu-first_with cs t id (i + 1) (λ j lt.
      let e' : i + 1 + j ≡ i + suc j = omega arith in rw e' (same (suc j) (omega arith))) in
    rw (here, later) refl

at_index-get_or :
    (l : List CpuEntry) (i : ℕ)
    → at_index l i ≡ (if leb (length l) i then none else some (get_or l i no_entry))
unfolding at_index
at_index-get_or [] i = ground arith
at_index-get_or (c ∷ cs) zero = ground arith
at_index-get_or (c ∷ cs) (suc i) = ground (arith, at_index-get_or cs i)

-- At most 64 CPUs that start one after the other all find room in the table, which then counts them,
-- finds the first of them with an id, or none, and gives the one at an index, or none.
pub init_all-table :
    (cs : List CpuEntry)
    → length cs ≤ 64
    → (t : CpuTable) × (init_all cs empty_table ≡ some t)
      × (cpu_get_count t ≡ length cs)
      × ((id : ℕ) → cpu_get_by_id t id ≡ first_with id cs)
      × ((i : ℕ) → cpu_get_by_index t i ≡ at_index cs i)
unfolding cpu_get_count cpu_get_by_id cpu_get_by_index
init_all-table cs small =
    let none_yet : Lists empty_table [] = record {
      room = length-replicate 64 no_entry;
      counted = refl;
      listed = λ i lt. absurd (omega arith);
    } in
    let (t, run, v) = init_all-Lists cs empty_table [] none_yet small in
    (
      t,
      run,
      v.counted,
      λ id. rw (v.counted) (
          find_cpu-first_with cs t id 0
            (λ j lt. let e : 0 + j ≡ j = omega arith in rw e (v.listed j lt))),
      λ i. elim (Bool-cases (leb (length cs) i)) [
        | inl past ↦ rw (v.counted, at_index-get_or cs i, past) refl
        | inr inside ↦
            rw (v.counted, at_index-get_or cs i, inside)
              (ap (λ c. some c) (v.listed i (ground (arith, inside))))
      ],
    )
