-- ===== src/Vmm/Init/Cover.antt =====
-- Which addresses the calls of `vmm_init` cover.
use barium.Prelude.{
  ℕ, zero, suc, ◌+◌, ◌*◌, ◌/◌, ◌^◌, ◌≤◌, ◌<◌, ◌≡◌, ◌≢◌, false, ◌++◌, ◌==◌, List, [], ◌∷◌, arith,
  Bool-cases, inl, inr, All, All-append,
}
use barium.Pmm.{u64}
use barium.Pmm.Init.{MemDesc}
use barium.Vmm.Init.{range_calls, region_flags, region_calls, buffer_calls}

-- What holds of every call for a range holds of every page of it, but the page at 0.
range_calls-covers :
    (P : ℕ → Type 0) (n a flags : ℕ)
    → a + n * 4096 ≤ 2 ^ 48
    → All (λ c. P c.0) (range_calls n a flags)
    → (k : ℕ) → k < n
    → a + k * 4096 ≢ 0
    → P (a + k * 4096)
unfolding range_calls
range_calls-covers P zero a flags low h k lt ne = absurd (omega arith)
range_calls-covers P (suc n) a flags low h zero lt ne =
    let e : a + 0 * 4096 ≡ a = omega arith in
    let go : (a == 0) ≡ false = ground (arith, ne) in
    let h' : All (λ c. P c.0) ((a, flags) ∷ range_calls n (u64 (a + 4096)) flags) = rw go at h in
    rw e h'.0
range_calls-covers P (suc n) a flags low h (suc k) lt ne =
    let next : u64 (a + 4096) ≡ a + 4096 = omega (arith, low) in
    let e : a + 4096 + k * 4096 ≡ a + suc k * 4096 = omega arith in
    let ne' : a + 4096 + k * 4096 ≢ 0 = λ z. absurd (omega (arith, z)) in
    let tail : All (λ c. P c.0) (range_calls n (u64 (a + 4096)) flags) =
      elim (Bool-cases (a == 0)) [ inl z ↦ rw z at h | inr nz ↦ (rw nz at h).1 ] in
    rw (← e) (
      range_calls-covers P n (a + 4096) flags (omega (arith, low)) (rw next at tail) k
        (omega (arith, lt)) ne')

range_calls_low :
    (n a flags : ℕ) → a + n * 4096 ≤ 2 ^ 48 → All (λ c. c.0 < 2 ^ 48) (range_calls n a flags)
unfolding range_calls
range_calls_low zero a flags low = tt
range_calls_low (suc n) a flags low =
    let next : u64 (a + 4096) ≡ a + 4096 = omega (arith, low) in
    let later : All (λ c. c.0 < 2 ^ 48) (range_calls n (u64 (a + 4096)) flags) =
      rw next (range_calls_low n (a + 4096) flags (omega (arith, low))) in
    elim (Bool-cases (a == 0)) [ inl z ↦ rw z later | inr nz ↦ rw nz (omega (arith, low), later) ]

pub buffer_calls-covers :
    (P : ℕ → Type 0) (n a : ℕ)
    → a + n * 4096 < 2 ^ 64
    → All (λ c. P c.0) (buffer_calls n a)
    → (k : ℕ) → k < n
    → P (a + k * 4096)
unfolding buffer_calls
buffer_calls-covers P zero a low h k lt = absurd (omega arith)
buffer_calls-covers P (suc n) a low h zero lt = let e : a + 0 * 4096 ≡ a = omega arith in rw e h.0
buffer_calls-covers P (suc n) a low h (suc k) lt =
    let next : u64 (a + 4096) ≡ a + 4096 = omega (arith, low) in
    let e : a + 4096 + k * 4096 ≡ a + suc k * 4096 = omega arith in
    rw (← e) (
      buffer_calls-covers P n (a + 4096) (omega (arith, low)) (rw next at h.1) k
        (omega (arith, lt)))

pub buffer_calls_low :
    (n a : ℕ) → a + n * 4096 < 2 ^ 48 + 4096 → All (λ c. c.0 < 2 ^ 48) (buffer_calls n a)
unfolding buffer_calls
buffer_calls_low zero a low = tt
buffer_calls_low (suc n) a low =
    let next : u64 (a + 4096) ≡ a + 4096 = omega (arith, low) in
    (omega (arith, low), rw next (buffer_calls_low n (a + 4096) (omega (arith, low))))

-- A region ends below 2^48.
abbrev pub IsLow : MemDesc → Type 0
IsLow d = d.physical_start + d.number_of_pages * 4096 ≤ 2 ^ 48

region_pages : (d : MemDesc) → IsLow d → u64 (d.number_of_pages * 4096) / 4096 ≡ d.number_of_pages
region_pages d low = omega (arith, low)

pub region_calls_low :
    (ds : List MemDesc) → All IsLow ds → All (λ c. c.0 < 2 ^ 48) (region_calls ds)
unfolding region_calls
region_calls_low [] low = tt
region_calls_low (d ∷ ds) low =
    let e = region_pages d low.0 in
    All-append (λ c. c.0 < 2 ^ 48) _ (region_calls ds)
      (rw e (range_calls_low d.number_of_pages d.physical_start (region_flags d) low.0))
      (region_calls_low ds low.1)

-- What holds of a page: each page of each region, but the page at 0.
abbrev pub EachPage : (ℕ → Type 0) → MemDesc → Type 0
EachPage P d =
    (k : ℕ)
    → k < d.number_of_pages
    → d.physical_start + k * 4096 ≢ 0
    → P (d.physical_start + k * 4096)

pub All-split : (P : ℕ × ℕ → Type 0) (xs ys : List (ℕ × ℕ)) → All P (xs ++ ys) → All P xs × All P ys
All-split P [] ys h = (tt, h)
All-split P (x ∷ xs) ys h = let r = All-split P xs ys h.1 in ((h.0, r.0), r.1)

pub region_calls-covers :
    (P : ℕ → Type 0) (ds : List MemDesc)
    → All IsLow ds
    → All (λ c. P c.0) (region_calls ds)
    → All (EachPage P) ds
unfolding region_calls
region_calls-covers P [] low h = tt
region_calls-covers P (d ∷ ds) low h =
    let both = All-split (λ c. P c.0) _ (region_calls ds) h in
    let e = region_pages d low.0 in
    let first : All (λ c. P c.0) (range_calls d.number_of_pages d.physical_start (region_flags d)) =
      rw e at both.0 in
    (
      λ k lt ne.
          range_calls-covers P d.number_of_pages d.physical_start (region_flags d) low.0 first k lt
            ne,
      region_calls-covers P ds low.1 both.1,
    )
