-- ===== src/Acpi/Walk.antt =====
-- The walk over the MADT: the processors that it lists, and where it does not end.
use barium.Prelude.{
  ℕ, zero, suc, ◌+◌, ◌%◌, ◌≤◌, ◌<◌, ◌≡◌, ◌≢◌, refl, ◌∙◌, ap, Bool, true, false, not, some, List, [],
  ◌∷◌, ◌++◌, ◌==◌, ltb, get_or, set, length, length-set, length-append, get_or-append, get_or-set,
  arith, inl, inr, Option-cases,
}
use mathlib.Core.List.{append_assoc, append-nil}
use barium.Acpi.{
  Bytes, Acpi, finished, entry_type, entry_length, lapic_id, lapic_flags, table_length,
  table_entries, xsdt_address, take_entry, walk_madt, find_madt, acpi_init, acpi_get_lapic_id,
  acpi_get_cpu_count,
}

-- An entry of the MADT as it is meant.
pub data Entry : Type 0 where
  local_apic : (apic_id : ℕ) (enabled : Bool) (size : ℕ) → Entry
  other : (type size : ℕ) → Entry

abbrev pub size_of : Entry → ℕ
size_of (local_apic a e n) = n
size_of (other t n) = n

-- Memory at `ptr` holds an entry.
abbrev pub Reads : Bytes → ℕ → Entry → Type 0
Reads m ptr (local_apic a e n) =
    (entry_type m ptr ≡ 0)
    × (entry_length m ptr ≡ n)
    × (lapic_id m ptr ≡ a)
    × (not (lapic_flags m ptr % 2 == 0) ≡ e)
Reads m ptr (other t n) = (entry_type m ptr ≡ t) × (t ≢ 0) × (entry_length m ptr ≡ n)

-- The entries stand one behind the other up to `end`, and none is empty.
abbrev pub Holds : Bytes → ℕ → List Entry → ℕ → Type 0
Holds m ptr [] end = ptr ≡ end
Holds m ptr (e ∷ es) end =
    Reads m ptr e × (0 < size_of e) × (ptr < end) × Holds m (ptr + size_of e) es end

-- The ids of the processors that can be used.
unfoldable pub enabled_ids : List Entry → List ℕ
enabled_ids [] = []
enabled_ids (local_apic a true n ∷ es) = a ∷ enabled_ids es
enabled_ids (local_apic a false n ∷ es) = enabled_ids es
enabled_ids (other t n ∷ es) = enabled_ids es

-- The table of the code lists the ids, in order.
pub record Lists (s : Acpi) (ids : List ℕ) : Type 0 where
  pub room : length s.cpu_apic_ids ≡ 64
  pub counted : s.cpu_count ≡ length ids
  pub listed : (i : ℕ) → i < length ids → get_or s.cpu_apic_ids i 0 ≡ get_or ids i 0

Lists-add :
    (s : Acpi) (ids : List ℕ) (a : ℕ)
    → s.cpu_count < 64
    → Lists s ids
    → Lists
        (record { cpu_apic_ids = set s.cpu_apic_ids s.cpu_count a; cpu_count = s.cpu_count + 1 })
        (ids ++ (a ∷ []))
Lists-add s ids a small v = record {
  room = length-set s.cpu_apic_ids s.cpu_count a ∙ v.room;
  counted = omega (arith, v.counted, length-append {A = ℕ} ids (a ∷ []));
  listed = λ i lt. ground (
    arith,
    length-append {A = ℕ} ids (a ∷ []),
    get_or-append ids a i 0,
    get_or-set s.cpu_apic_ids s.cpu_count i a 0,
    v.listed i,
    v.counted,
    v.room,
  );
}

-- One entry adds its processor if it has one to add.
added : Entry → List ℕ → List ℕ
added (local_apic a true n) ids = ids ++ (a ∷ [])
added (local_apic a false n) ids = ids
added (other t n) ids = ids

abbrev Takes : Bytes → ℕ → Acpi → Entry → List ℕ → Type 0
Takes m ptr s e ids = (s' : Acpi) × (take_entry m ptr s ≡ some s') × Lists s' (added e ids)

take_entry-Takes :
    (m : Bytes) (ptr : ℕ) (s : Acpi) (e : Entry) (ids : List ℕ)
    → Reads m ptr e
    → Lists s ids
    → length (added e ids) ≤ 64
    → Takes m ptr s e ids
unfolding take_entry added
take_entry-Takes m ptr s (other t n) ids r v room =
    let no : (entry_type m ptr == 0) ≡ false = ground (arith, r.0, r.1) in (s, rw no refl, v)
take_entry-Takes m ptr s (local_apic a false n) ids r v room = (s, rw (r.0, r.3) refl, v)
take_entry-Takes m ptr s (local_apic a true n) ids r v room =
    let small : s.cpu_count < 64 =
      omega (arith, v.counted, length-append {A = ℕ} ids (a ∷ []), room) in
    let fits : ltb s.cpu_count 64 ≡ true = ground arith in
    (
      record { cpu_apic_ids = set s.cpu_apic_ids s.cpu_count a; cpu_count = s.cpu_count + 1 },
      rw (r.0, r.3, fits, r.2) refl,
      Lists-add s ids a small v,
    )

added_more :
    (e : Entry) (ids : List ℕ) (es : List Entry)
    → added e ids ++ enabled_ids es ≡ ids ++ enabled_ids (e ∷ es)
unfolding added enabled_ids
added_more (local_apic a true n) ids es = append_assoc ids (a ∷ []) (enabled_ids es)
added_more (local_apic a false n) ids es = refl
added_more (other t n) ids es = refl

entry_size : (m : Bytes) (ptr : ℕ) (e : Entry) → Reads m ptr e → entry_length m ptr ≡ size_of e
entry_size m ptr (local_apic a b n) r = r.1
entry_size m ptr (other t n) r = r.2

walk_madt-Lists :
    (es : List Entry) (f : ℕ) (m : Bytes) (ptr end : ℕ) (s : Acpi) (ids : List ℕ)
    → length es < f
    → Holds m ptr es end
    → Lists s ids
    → length (ids ++ enabled_ids es) ≤ 64
    → (s' : Acpi) × (walk_madt f m ptr end s ≡ finished s') × Lists s' (ids ++ enabled_ids es)
unfolding walk_madt
walk_madt-Lists es zero m ptr end s ids fuel h v room = absurd (omega arith)
walk_madt-Lists [] (suc f) m ptr end s ids fuel h v room =
    let stop : ltb ptr end ≡ false = ground (arith, h) in
    (s, rw stop refl, unfold enabled_ids in rw (append-nil) v)
walk_madt-Lists (e ∷ es) (suc f) m ptr end s ids fuel h v room =
    let go : ltb ptr end ≡ true = ground (arith, h.2) in
    let more = added_more e ids es in
    let len = ap (λ (l : List ℕ). length l) more in
    let split = length-append {A = ℕ} (added e ids) (enabled_ids es) in
    let (s', step, v') = take_entry-Takes m ptr s e ids h.0 v (omega (arith, len, split, room)) in
    let (s'', run, v'') =
      walk_madt-Lists es f m (ptr + size_of e) end s' (added e ids) (omega arith) h.3 v'
        (omega (arith, len, room)) in
    (s'', rw (go, step, entry_size m ptr e h.0) run, rw (← more) v'')

-- `acpi_init` ends, with one round for each entry and one more, and lists the ids of the enabled
-- processors in order: if the search finds the MADT, the MADT holds entries that are not empty, one
-- behind the other up to its end, and at most 64 of them are enabled processors.
pub acpi_init-Lists :
    (f : ℕ) (m : Bytes) (rsdp madt : ℕ) (es : List Entry) (s : Acpi)
    → find_madt (table_entries (table_length m (xsdt_address m rsdp))) m (xsdt_address m rsdp + 36)
      ≡ some madt
    → Holds m (madt + 44) es (madt + table_length m madt)
    → Lists s []
    → length (enabled_ids es) ≤ 64
    → length es < f
    → (s' : Acpi) × (acpi_init f m rsdp s ≡ finished s')
      × (acpi_get_cpu_count s' ≡ length (enabled_ids es))
      × ((i : ℕ)
          → i < length (enabled_ids es)
          → acpi_get_lapic_id s' i ≡ get_or (enabled_ids es) i 0)
unfolding acpi_init acpi_get_cpu_count acpi_get_lapic_id
acpi_init-Lists f m rsdp madt es s found h v room fuel =
    let (s', run, v') =
      walk_madt-Lists es f m (madt + 44) (madt + table_length m madt) s [] fuel h v room in
    (s', rw (acpi_init, found) run, v'.counted, v'.listed)

-- An entry of length 0 before the end of the MADT keeps the walk where it is: it never comes to the
-- end, however long it goes on.
walk_madt_empty :
    (f : ℕ) (m : Bytes) (ptr end : ℕ) (s : Acpi)
    → ptr < end
    → entry_length m ptr ≡ 0
    → (s' : Acpi) → walk_madt f m ptr end s ≢ finished s'
unfolding walk_madt
walk_madt_empty zero m ptr end s lt none_long s' = λ e. absurd (ground (arith, e))
walk_madt_empty (suc f) m ptr end s lt none_long s' =
    let go : ltb ptr end ≡ true = ground arith in
    let same : ptr + entry_length m ptr ≡ ptr = omega (arith, none_long) in
    let lt' : ptr + entry_length m ptr < end = omega (arith, none_long, lt) in
    let stays = ap (entry_length m) same ∙ none_long in
    rw go (elim (Option-cases (take_entry m ptr s)) [
      | inl e ↦ rw e (λ p. absurd (ground (arith, p)))
      | inr (s'', e) ↦ rw e (walk_madt_empty f m (ptr + entry_length m ptr) end s'' lt' stays s')
    ])
