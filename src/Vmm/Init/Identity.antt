-- ===== src/Vmm/Init/Identity.antt =====
-- The mappings of `vmm_init`.
use barium.Prelude.{
  ℕ, zero, suc, ◌+◌, ◌*◌, ◌/◌, ◌^◌, ◌≤◌, ◌<◌, ◌≡◌, ◌∙◌, true, ◌==◌, if◌then◌else◌, List, [], ◌∷◌,
  arith, Bool-cases, inl, inr, All, All-append,
}
use barium.Pmm.{Pmm, pmm_alloc, u64}
use barium.Pmm.Init.{MemDesc}
use barium.Pmm.One.{pages_left, HasPages, TookOne, pmm_alloc_one, pmm_alloc-left}
use barium.Vmm.{
  Words, Vmm, is_present, frame, next_table, vmm_map, vmm_get_phys, clear_words, pml4_idx, pdpt_idx,
  pd_idx,
}
use barium.Vmm.Tables.{slot, Kinds, clear_words-get, get_phys_same_page}
use barium.Vmm.Next.{IsVmm}
use barium.Vmm.Contract.{Mapped, page_number, vmm_map-Mapped}
use barium.Vmm.Init.Cover.{
  buffer_calls-covers, buffer_calls_low, IsLow, region_calls_low, EachPage, All-split,
  region_calls-covers,
}
use barium.Vmm.Init.{
  range_calls, region_flags, region_calls, buffer_calls, init_calls, map_all, vmm_init,
}

-- Taking tables never gives pages back, whether or not an allocation succeeds.
next_table-left :
    (s : Vmm) (entry : ℕ)
    → HasPages s.pmm
    → let s' = (next_table s entry).1 in HasPages s'.pmm × (pages_left s'.pmm ≤ pages_left s.pmm)
unfolding next_table
next_table-left s entry v = elim (Bool-cases (is_present (s.words entry))) [
  | inl here ↦ rw here (v, omega arith)
  | inr missing ↦ rw missing (pmm_alloc-left s.pmm v)
]

vmm_map-left :
    (s : Vmm) (root virt phys flags : ℕ)
    → HasPages s.pmm
    → let s' = vmm_map s root virt phys flags in
      HasPages s'.pmm × (pages_left s'.pmm ≤ pages_left s.pmm)
unfolding vmm_map
vmm_map-left s root virt phys flags v =
    let e₁ = root + 8 * pml4_idx virt in
    let s₁ = (next_table s e₁).1 in
    let e₂ = (next_table s e₁).0 + 8 * pdpt_idx virt in
    let s₂ = (next_table s₁ e₂).1 in
    let e₃ = (next_table s₁ e₂).0 + 8 * pd_idx virt in
    let a = next_table-left s e₁ v in
    let b = next_table-left s₁ e₂ a.0 in
    let c = next_table-left s₂ e₃ b.0 in (c.0, omega (arith, a.1, b.1, c.1))

map_all-left :
    (cs : List (ℕ × ℕ)) (root : ℕ) (s : Vmm)
    → HasPages s.pmm
    → pages_left (map_all root cs s).pmm ≤ pages_left s.pmm
unfolding map_all
map_all-left [] root s v = omega arith
map_all-left ((a, flags) ∷ cs) root s v =
    let first = vmm_map-left s root a a flags v in
    omega (arith, first.1, map_all-left cs root (vmm_map s root a a flags) first.0)

-- An address of 48 bits, and flags that say present.
abbrev pub IsCall : ℕ × ℕ → Type 0
IsCall (a, flags) = (a < 2 ^ 48) × (flags < 4096) × (is_present flags ≡ true)

-- The page of the address is mapped to itself.
abbrev pub IsIdentity : Words → ℕ → ℕ → Type 0
IsIdentity m root a = vmm_get_phys m (root * 4096) a ≡ frame a

Mapped-keeps :
    (s : Vmm) (kind : Kinds) (root a b : ℕ) (s' : Vmm)
    → a < 2 ^ 48
    → b < 2 ^ 48
    → Mapped s kind root b b s'
    → IsIdentity s.words root a
    → IsIdentity s'.words root a
Mapped-keeps s kind root a b s' ha hb m before =
    elim (Bool-cases (page_number a == page_number b)) [
      | inl same ↦
          let e : page_number a ≡ page_number b = ground arith in
          get_phys_same_page s'.words (root * 4096) a b e ∙ m.here ∙ omega (arith, e)
      | inr other ↦ m.others a (ground arith) ∙ before
    ]

map_all-IsIdentity :
    (cs : List (ℕ × ℕ)) (s : Vmm) (kind : Kinds) (root : ℕ)
    → IsVmm s kind
    → kind root ≡ 4
    → HasPages s.pmm
    → All IsCall cs
    → 3 < pages_left (map_all (root * 4096) cs s).pmm
    → ((a : ℕ)
        → a < 2 ^ 48
        → IsIdentity s.words root a
        → IsIdentity (map_all (root * 4096) cs s).words root a)
      × All (λ c. IsIdentity (map_all (root * 4096) cs s).words root c.0) cs
unfolding map_all
map_all-IsIdentity [] s kind root v top h cs room = (λ a ha before. before, tt)
map_all-IsIdentity ((a, flags) ∷ cs) s kind root v top h calls room =
    let s' = vmm_map s (root * 4096) a a flags in
    let first = vmm_map-left s (root * 4096) a a flags h in
    let more = map_all-left cs (root * 4096) s' first.0 in
    let m =
      vmm_map-Mapped s kind root a a flags v top (omega (arith, first.1, more, room)) calls.0.1
        calls.0.2 in
    let later =
      map_all-IsIdentity cs s' m.kind' root m.valid (m.kinds root (omega (arith, top)) ∙ top)
        first.0 calls.1 room in
    (
      λ b hb before. later.0 b hb (Mapped-keeps s kind root b a s' hb calls.0.0 m before),
      (later.0 a calls.0.0 m.here, later.1),
    )

-- The first table has no entry.
first_table :
    (s : Vmm) (pmm : Pmm) (address : ℕ)
    → (o : TookOne s.pmm address pmm)
    → let m = clear_words 512 s.words (o.page * 4096) in
      IsVmm (record { words = m; pmm = pmm }) (λ q. if q == o.page then 4 else 0)
first_table s pmm address o =
    let m = clear_words 512 s.words (o.page * 4096) in
    let blank : (t i : ℕ) → 2 ≤ (if t == o.page then 4 else 0) → i < 512 → m (slot t i) ≡ 0 =
      λ t i high hi. ground (arith, clear_words-get 512 s.words (o.page * 4096) (slot t i)) in
    record {
      tree = record {
        points = λ t i high hi here. absurd (ground (arith, blank t i high hi));
        allows = λ t i high hi here. absurd (ground (arith, blank t i high hi));
        apart =
            λ t i t' i' high high' hi hi' here here' e. absurd (ground (arith, blank t i high hi));
      };
      pmm = o.valid;
      tables_taken = λ t ne. ground (arith, o.marked t);
    }

-- Every call of `vmm_init` has flags that say present.
abbrev HasFlags : ℕ × ℕ → Type 0
HasFlags (a, flags) = (flags < 4096) × (is_present flags ≡ true)

region_flags-HasFlags : (d : MemDesc) (a : ℕ) → HasFlags (a, region_flags d)
unfolding region_flags
region_flags-HasFlags d a = ground arith

range_calls-HasFlags : (n a flags : ℕ) → HasFlags (a, flags) → All HasFlags (range_calls n a flags)
unfolding range_calls
range_calls-HasFlags zero a flags h = tt
range_calls-HasFlags (suc n) a flags h =
    let later = range_calls-HasFlags n (u64 (a + 4096)) flags h in
    elim (Bool-cases (a == 0)) [ inl z ↦ rw z later | inr nz ↦ rw nz (h, later) ]

region_calls-HasFlags : (ds : List MemDesc) → All HasFlags (region_calls ds)
unfolding region_calls
region_calls-HasFlags [] = tt
region_calls-HasFlags (d ∷ ds) =
    All-append HasFlags _ _
      (range_calls-HasFlags (u64 (d.number_of_pages * 4096) / 4096) d.physical_start
        (region_flags d) (region_flags-HasFlags d 0))
      (region_calls-HasFlags ds)

buffer_calls-HasFlags : (n a : ℕ) → All HasFlags (buffer_calls n a)
unfolding buffer_calls
buffer_calls-HasFlags zero a = tt
buffer_calls-HasFlags (suc n) a =
    ((omega arith, ground arith), buffer_calls-HasFlags n (u64 (a + 4096)))

init_calls-HasFlags :
    (info : List MemDesc) (fb_base fb_size : ℕ) → All HasFlags (init_calls info fb_base fb_size)
unfolding init_calls
init_calls-HasFlags info fb_base fb_size =
    All-append HasFlags (region_calls info) (buffer_calls (u64 (fb_size + 4095) / 4096) fb_base)
      (region_calls-HasFlags info) (buffer_calls-HasFlags (u64 (fb_size + 4095) / 4096) fb_base)

with_addresses : (cs : List (ℕ × ℕ)) → All HasFlags cs → All (λ c. c.0 < 2 ^ 48) cs → All IsCall cs
with_addresses [] f h = tt
with_addresses ((a, flags) ∷ cs) f h = ((h.0, f.0.0, f.0.1), with_addresses cs f.1 h.1)

vmm_init-calls :
    (s : Vmm) (info : List MemDesc) (fb_base fb_size : ℕ)
    → HasPages s.pmm
    → All (λ c. c.0 < 2 ^ 48) (init_calls info fb_base fb_size)
    → 3 < pages_left (vmm_init s info fb_base fb_size).1.pmm
    → let (root, s') = vmm_init s info fb_base fb_size in
      All (λ c. vmm_get_phys s'.words root c.0 ≡ frame c.0) (init_calls info fb_base fb_size)
unfolding vmm_init
vmm_init-calls s info fb_base fb_size h low room =
    let cs = init_calls info fb_base fb_size in
    let (address, pmm) = pmm_alloc s.pmm 1 in
    let start : Vmm = record { words = clear_words 512 s.words address; pmm = pmm } in
    let one = pmm_alloc-left s.pmm h in
    let more = map_all-left cs address start one.0 in
    let o = pmm_alloc_one s.pmm h.0 (omega (arith, one.1, more, room)) in
    let first = first_table s pmm address o in
    let start' : Vmm = record { words = clear_words 512 s.words (o.page * 4096); pmm = pmm } in
    let room' : 3 < pages_left (map_all (o.page * 4096) cs start').pmm = rw (o.address) at room in
    rw (o.address)
      (map_all-IsIdentity cs start' (λ q. if q == o.page then 4 else 0) o.page first (ground arith)
        one.0 (with_addresses cs (init_calls-HasFlags info fb_base fb_size) low) room').1

-- When every region of the memory map ends below 2^48 and so does the frame buffer, and more than three
-- pages are left at the end, `vmm_init` has mapped to itself each page of each region, but the page at
-- 0, and each page of the frame buffer.
pub vmm_init-IsIdentity :
    (s : Vmm) (info : List MemDesc) (fb_base fb_size : ℕ)
    → HasPages s.pmm
    → All IsLow info
    → fb_base + fb_size ≤ 2 ^ 48
    → 3 < pages_left (vmm_init s info fb_base fb_size).1.pmm
    → let (root, s') = vmm_init s info fb_base fb_size in
      All (EachPage (λ a. vmm_get_phys s'.words root a ≡ frame a)) info
      × ((k : ℕ)
          → k * 4096 < fb_size
          → vmm_get_phys s'.words root (fb_base + k * 4096) ≡ frame (fb_base + k * 4096))
unfolding init_calls
vmm_init-IsIdentity s info fb_base fb_size h low fb_low room =
    let (root, s') = vmm_init s info fb_base fb_size in
    let n = u64 (fb_size + 4095) / 4096 in
    let calls_low =
      All-append (λ c. c.0 < 2 ^ 48) (region_calls info) (buffer_calls n fb_base)
        (region_calls_low info low) (buffer_calls_low n fb_base (omega (arith, fb_low))) in
    let done =
      All-split (λ c. vmm_get_phys s'.words root c.0 ≡ frame c.0) (region_calls info)
        (buffer_calls n fb_base) (vmm_init-calls s info fb_base fb_size h calls_low room) in
    (
      region_calls-covers (λ a. vmm_get_phys s'.words root a ≡ frame a) info low done.0,
      λ k lt.
          buffer_calls-covers (λ a. vmm_get_phys s'.words root a ≡ frame a) n fb_base
            (omega (arith, fb_low)) done.1 k (omega (arith, lt, fb_low)),
    )
