-- ===== src/Boot/Best.antt =====
-- The video mode and the root pointer that the loader chooses.
use barium.Prelude.{
  ℕ, zero, suc, ◌+◌, ◌≤◌, ◌<◌, ◌≡◌, ◌≢◌, ◌⊎◌, inl, inr, refl, ◌&&◌, Option, none, some, List, [],
  ◌∷◌, ◌==◌, ltb, arith, Bool-cases,
}
use barium.Boot.{ConfigurationTable, ModeInformation, get_rsdp, pixels, choose_mode}

-- The pixels of a mode, 0 for one that the firmware does not describe.
abbrev pub pixels_of : Option ModeInformation → ℕ
pixels_of none = 0
pixels_of (some info) = pixels info

abbrev pub pixels_at : List (Option ModeInformation) → ℕ → ℕ
pixels_at [] j = 0
pixels_at (m ∷ ms) zero = pixels_of m
pixels_at (m ∷ ms) (suc j) = pixels_at ms j

-- The mode `k` has the most pixels, and is the first that has.
abbrev pub IsBest : List (Option ModeInformation) → ℕ → Type 0
IsBest ms k =
    (j : ℕ) → (pixels_at ms j ≤ pixels_at ms k) × (j < k → pixels_at ms j < pixels_at ms k)

-- How the loop ends from the mode `i` on: with the mode it had, or with a better one.
abbrev Ends : List (Option ModeInformation) → (i best_mode max_pixels r : ℕ) → Type 0
Ends ms i best_mode max_pixels r =
    ((r ≡ best_mode) × ((j : ℕ) → pixels_at ms j ≤ max_pixels))
    ⊎ ((k : ℕ) × (r ≡ i + k) × (max_pixels < pixels_at ms k) × IsBest ms k)

none_above :
    (m : Option ModeInformation) (ms : List (Option ModeInformation)) (x : ℕ)
    → pixels_of m ≤ x
    → ((j : ℕ) → pixels_at ms j ≤ x)
    → (j : ℕ) → pixels_at (m ∷ ms) j ≤ x
none_above m ms x first others zero = first
none_above m ms x first others (suc j) = others j

first-IsBest :
    (m : Option ModeInformation) (ms : List (Option ModeInformation))
    → ((j : ℕ) → pixels_at ms j ≤ pixels_of m)
    → IsBest (m ∷ ms) 0
first-IsBest m ms others zero = (omega arith, λ lt. absurd (omega arith))
first-IsBest m ms others (suc j) = (others j, λ lt. absurd (omega arith))

later-IsBest :
    (m : Option ModeInformation) (ms : List (Option ModeInformation)) (k : ℕ)
    → pixels_of m < pixels_at ms k
    → IsBest ms k
    → IsBest (m ∷ ms) (suc k)
later-IsBest m ms k less best zero = (omega (arith, less), λ lt. less)
later-IsBest m ms k less best (suc j) = ((best j).0, λ lt. (best j).1 (omega arith))

-- A mode that is passed over.
passed-Ends :
    (m : Option ModeInformation) (ms : List (Option ModeInformation)) (i best_mode max_pixels r : ℕ)
    → pixels_of m ≤ max_pixels
    → Ends ms (i + 1) best_mode max_pixels r
    → Ends (m ∷ ms) i best_mode max_pixels r
passed-Ends m ms i b x r low e = elim e [
  | inl (same, none_more) ↦ inl (same, none_above m ms x low none_more)
  | inr (k, at, more, best) ↦
      inr (suc k, omega (arith, at), more, later-IsBest m ms k (omega (arith, more)) best)
]

-- A mode that is taken for now.
taken-Ends :
    (m : Option ModeInformation) (ms : List (Option ModeInformation)) (i best_mode max_pixels r : ℕ)
    → max_pixels < pixels_of m
    → Ends ms (i + 1) i (pixels_of m) r
    → Ends (m ∷ ms) i best_mode max_pixels r
taken-Ends m ms i b x r high e = elim e [
  | inl (same, none_more) ↦ inr (0, omega (arith, same), high, first-IsBest m ms none_more)
  | inr (k, at, more, best) ↦
      inr (suc k, omega (arith, at), omega (arith, more), later-IsBest m ms k more best)
]

choose_mode-Ends :
    (ms : List (Option ModeInformation)) (i best_mode max_pixels : ℕ)
    → Ends ms i best_mode max_pixels (choose_mode ms i best_mode max_pixels)
unfolding choose_mode
choose_mode-Ends [] i b x = inl (refl, λ j. omega arith)
choose_mode-Ends (none ∷ ms) i b x =
    passed-Ends none ms i b x (choose_mode ms (i + 1) b x) (omega arith)
      (choose_mode-Ends ms (i + 1) b x)
choose_mode-Ends (some info ∷ ms) i b x =
    let p = pixels info in
    elim (Bool-cases (ltb x p)) [
      | inl better ↦ rw better (
          taken-Ends (some info) ms i b x (choose_mode ms (i + 1) i p) (ground (arith, better))
            (choose_mode-Ends ms (i + 1) i p))
      | inr worse ↦ rw worse (
          passed-Ends (some info) ms i b x (choose_mode ms (i + 1) b x) (ground (arith, worse))
            (choose_mode-Ends ms (i + 1) b x))
    ]

pub choose_mode-IsBest : (ms : List (Option ModeInformation)) → IsBest ms (choose_mode ms 0 0 0)
choose_mode-IsBest ms = elim (choose_mode-Ends ms 0 0 0) [
  | inl (same, none_more) ↦ rw same (λ j. (omega (arith, none_more j), λ lt. absurd (omega arith)))
  | inr (k, at, more, best) ↦ let e : choose_mode ms 0 0 0 ≡ k = omega (arith, at) in rw e best
]

-- The three fields of the identifier that the loader compares.
abbrev pub Matches : ConfigurationTable → Type 0
Matches t =
    (t.vendor_guid.data1 ≡ 0x8868e871)
    × (t.vendor_guid.data2 ≡ 0xe4f1)
    × (t.vendor_guid.data3 ≡ 0x11d3)

-- The table of the first entry that matches.
abbrev pub IsFirst : List ConfigurationTable → ℕ → Type 0
IsFirst [] r = ⊥
IsFirst (t ∷ ts) r = (Matches t × (t.vendor_table ≡ r)) ⊎ (¬ Matches t × IsFirst ts r)

pub get_rsdp-IsFirst : (ts : List ConfigurationTable) → get_rsdp ts ≢ 0 → IsFirst ts (get_rsdp ts)
unfolding get_rsdp
get_rsdp-IsFirst [] found = found refl
get_rsdp-IsFirst (t ∷ ts) found =
    let guid = t.vendor_guid in
    elim (Bool-cases (guid.data1 == 0x8868e871 && (guid.data2 == 0xe4f1 && guid.data3 == 0x11d3))) [
      | inl same ↦ rw same (inl (ground (arith, same), refl))
      | inr other ↦
          rw other (
            inr
              (λ h. ground (arith, other, h.0, h.1, h.2), get_rsdp-IsFirst ts (rw other at found)))
    ]
