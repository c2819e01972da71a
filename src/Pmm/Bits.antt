-- ===== src/Pmm/Bits.antt =====
-- The bitmap as a set of pages: what setting and clearing a bit does to every bit.
use Prim.Native.Nat.{bit_and, bit_or}
use barium.Prelude.{
  ℕ, zero, suc, ◌+◌, ◌-◌, ◌/◌, ◌%◌, ◌^◌, ◌<◌, ◌≡◌, refl, Bool, true, false, not, ◌&&◌, arith, ◌==◌,
  ltb, leb, if◌then◌else◌, Bool-cases, inl, inr,
}
use barium.Pmm.{Bitmap, bitmap_set, bitmap_clear, bitmap_test, set_pages, clear_pages}

-- A test that every index below a bound passes, by evaluation.
module _ (passes : ℕ → Bool) where
  unfoldable pub pass_below : ℕ → Bool
  pass_below zero = true
  pass_below (suc top) = if passes top then pass_below top else false

  pub passes_at : {bound : ℕ} → pass_below bound ≡ true → (i : ℕ) → i < bound → passes i ≡ true
  unfolding pass_below
  passes_at {bound = zero} checked i inside = absurd (omega arith)
  passes_at {bound = suc top} checked i inside = elim (Bool-cases (i == top)) [
    | inl last ↦ let e : i ≡ top = ground arith in rw e (ground arith)
    | inr before ↦ passes_at {bound = top} (ground arith) i (ground arith)
  ]

abbrev bit : ℕ → ℕ → Bool
bit v k = not (bit_and v (2 ^ k) == 0)

abbrev same : Bool → Bool → Bool
same true b = b
same false b = not b

same-eq : (a b : Bool) → same a b ≡ true → a ≡ b
same-eq true b h = ground arith
same-eq false b h = ground arith

-- The three facts for all bytes and bits.
set_fact : ℕ → ℕ → ℕ → Bool
set_fact v k j = same (bit (bit_or v (2 ^ k)) j) (if j == k then true else bit v j)

clear_fact : ℕ → ℕ → ℕ → Bool
clear_fact v k j = same (bit (bit_and v (255 - 2 ^ k)) j) (if j == k then false else bit v j)

bound_fact : ℕ → ℕ → Bool
bound_fact v k = ltb (bit_or v (2 ^ k)) 256 && ltb (bit_and v (255 - 2 ^ k)) 256

set_table : pass_below (λ v. pass_below (λ k. pass_below (set_fact v k) 8) 8) 256 ≡ true
unfolding pass_below set_fact
set_table = refl

clear_table : pass_below (λ v. pass_below (λ k. pass_below (clear_fact v k) 8) 8) 256 ≡ true
unfolding pass_below clear_fact
clear_table = refl

bounds_table : pass_below (λ v. pass_below (bound_fact v) 8) 256 ≡ true
unfolding pass_below bound_fact
bounds_table = refl

-- The bitmap is made of bytes.
abbrev pub IsBytes : Bitmap → Type 0
IsBytes b = (i : ℕ) → b i < 256

module _ (v k : ℕ) (hv : v < 256) (hk : k < 8) where
  bit-bit_or : (j : ℕ) → j < 8 → bit (bit_or v (2 ^ k)) j ≡ (if j == k then true else bit v j)
  unfolding set_fact
  bit-bit_or j hj = same-eq _ _ (
      passes_at (set_fact v k)
        (passes_at (λ k. pass_below (set_fact v k) 8) (passes_at _ set_table v hv) k hk) j hj)

  bit-bit_and :
      (j : ℕ) → j < 8 → bit (bit_and v (255 - 2 ^ k)) j ≡ (if j == k then false else bit v j)
  unfolding clear_fact
  bit-bit_and j hj = same-eq _ _ (
      passes_at (clear_fact v k)
        (passes_at (λ k. pass_below (clear_fact v k) 8) (passes_at _ clear_table v hv) k hk) j hj)

  byte_bounds : (bit_or v (2 ^ k) < 256) × (bit_and v (255 - 2 ^ k) < 256)
  unfolding bound_fact
  byte_bounds = ground (arith, passes_at (bound_fact v) (passes_at _ bounds_table v hv) k hk)

module _ (b : Bitmap) (bytes : IsBytes b) (p : ℕ) where
  pub bitmap_set-IsBytes : IsBytes (bitmap_set b p)
  unfolding bitmap_set
  bitmap_set-IsBytes i =
      ground (arith, bytes i, byte_bounds (b (p / 8)) (p % 8) (bytes (p / 8)) (omega arith))

  pub bitmap_clear-IsBytes : IsBytes (bitmap_clear b p)
  unfolding bitmap_clear
  bitmap_clear-IsBytes i =
      ground (arith, bytes i, byte_bounds (b (p / 8)) (p % 8) (bytes (p / 8)) (omega arith))

  pub test-set :
      (q : ℕ) → bitmap_test (bitmap_set b p) q ≡ (if q == p then true else bitmap_test b q)
  unfolding bitmap_set bitmap_test
  test-set q = elim (Bool-cases (q / 8 == p / 8)) [
    | inl here ↦
        let e : q / 8 ≡ p / 8 = ground arith in
        let pages : (q == p) ≡ (q % 8 == p % 8) = ground arith in
        rw (here, pages, e)
          (bit-bit_or (b (p / 8)) (p % 8) (bytes (p / 8)) (omega arith) (q % 8) (omega arith))
    | inr other ↦ let pages : (q == p) ≡ false = ground arith in rw (other, pages) refl
  ]

  pub test-clear :
      (q : ℕ) → bitmap_test (bitmap_clear b p) q ≡ (if q == p then false else bitmap_test b q)
  unfolding bitmap_clear bitmap_test
  test-clear q = elim (Bool-cases (q / 8 == p / 8)) [
    | inl here ↦
        let e : q / 8 ≡ p / 8 = ground arith in
        let pages : (q == p) ≡ (q % 8 == p % 8) = ground arith in
        rw (here, pages, e)
          (bit-bit_and (b (p / 8)) (p % 8) (bytes (p / 8)) (omega arith) (q % 8) (omega arith))
    | inr other ↦ let pages : (q == p) ≡ false = ground arith in rw (other, pages) refl
  ]

-- A run of pages.
abbrev pub within : ℕ → ℕ → ℕ → Bool
within p n q = leb p q && ltb q (p + n)

pub set_pages-IsBytes : (n : ℕ) (b : Bitmap) (p : ℕ) → IsBytes b → IsBytes (set_pages n b p)
unfolding set_pages
set_pages-IsBytes zero b p h = h
set_pages-IsBytes (suc n) b p h =
    set_pages-IsBytes n (bitmap_set b p) (p + 1) (bitmap_set-IsBytes b h p)

pub clear_pages-IsBytes : (n : ℕ) (b : Bitmap) (p : ℕ) → IsBytes b → IsBytes (clear_pages n b p)
unfolding clear_pages
clear_pages-IsBytes zero b p h = h
clear_pages-IsBytes (suc n) b p h =
    clear_pages-IsBytes n (bitmap_clear b p) (p + 1) (bitmap_clear-IsBytes b h p)

pub test-set_pages :
    (n : ℕ) (b : Bitmap) (p q : ℕ)
    → IsBytes b
    → bitmap_test (set_pages n b p) q ≡ (if within p n q then true else bitmap_test b q)
unfolding set_pages
test-set_pages zero b p q h = ground arith
test-set_pages (suc n) b p q h = ground (
  arith,
  test-set_pages n (bitmap_set b p) (p + 1) q (bitmap_set-IsBytes b h p),
  test-set b h p q,
)

pub test-clear_pages :
    (n : ℕ) (b : Bitmap) (p q : ℕ)
    → IsBytes b
    → bitmap_test (clear_pages n b p) q ≡ (if within p n q then false else bitmap_test b q)
unfolding clear_pages
test-clear_pages zero b p q h = ground arith
test-clear_pages (suc n) b p q h = ground (
  arith,
  test-clear_pages n (bitmap_clear b p) (p + 1) q (bitmap_clear-IsBytes b h p),
  test-clear b h p q,
)
