-- ===== src/Console/Digits.antt =====
-- The digits of `console_print_num` are the decimal form of the number.
use barium.Prelude.{
  ℕ, zero, suc, ◌+◌, ◌-◌, ◌*◌, ◌/◌, ◌%◌, ◌^◌, ◌≤◌, ◌<◌, ◌≡◌, ◌≢◌, refl, ap, ◌∙◌, List, [], ◌∷◌,
  ◌==◌, get_or, length, All, arith, Bool-cases, inl, inr, false,
}
use native.Mathlib.Numerals.{unary_clauses}
use barium.Console.{digits, digits_onto}

-- The number that a row of digits names, behind a number read so far.
pub value : List ℕ → ℕ → ℕ
value [] n = n
value (d ∷ ds) n = value ds (n * 10 + (d - 48))

abbrev pub IsDigit : ℕ → Type 0
IsDigit c = (48 ≤ c) × (c ≤ 57)

digits_onto-value :
    (f val : ℕ) (ds : List ℕ) → val < 10 ^ f → value (digits_onto f val ds) 0 ≡ value ds val
unfolding digits_onto value
digits_onto-value zero val ds small = let e : val ≡ 0 = omega arith in rw e refl
digits_onto-value (suc f) val ds small = elim (Bool-cases (val == 0)) [
  | inl ends ↦ let e : val ≡ 0 = ground arith in rw e refl
  | inr more ↦
      let bound : val < 10 ^ f * 10 = simp unary_clauses at small in
      let e : val / 10 * 10 + (val % 10 + 48 - 48) ≡ val = omega arith in
      rw more
        (digits_onto-value f (val / 10) ((val % 10 + 48) ∷ ds) (omega arith) ∙ ap (value ds) e)
]

digits_onto-IsDigit :
    (f val : ℕ) (ds : List ℕ) → All IsDigit ds → All IsDigit (digits_onto f val ds)
unfolding digits_onto
digits_onto-IsDigit zero val ds h = h
digits_onto-IsDigit (suc f) val ds h = elim (Bool-cases (val == 0)) [
  | inl ends ↦ rw ends h
  | inr more ↦
      rw more
        (digits_onto-IsDigit f (val / 10) ((val % 10 + 48) ∷ ds) ((omega arith, omega arith), h))
]

length-digits_onto : (f val : ℕ) (ds : List ℕ) → length (digits_onto f val ds) ≤ f + length ds
unfolding digits_onto
length-digits_onto zero val ds = omega arith
length-digits_onto (suc f) val ds =
    ground (arith, length-digits_onto f (val / 10) ((val % 10 + 48) ∷ ds))

digits_onto_zero : (f : ℕ) (ds : List ℕ) → digits_onto f 0 ds ≡ ds
unfolding digits_onto
digits_onto_zero zero ds = refl
digits_onto_zero (suc f) ds = refl

digits_onto_first :
    (f val : ℕ) (ds : List ℕ) → val ≢ 0 → val < 10 ^ f → get_or (digits_onto f val ds) 0 0 ≢ 48
unfolding digits_onto
digits_onto_first zero val ds ne small = absurd (omega arith)
digits_onto_first (suc f) val ds ne small =
    let more : (val == 0) ≡ false = ground arith in
    let bound : val < 10 ^ f * 10 = simp unary_clauses at small in
    elim (Bool-cases (val / 10 == 0)) [
      | inl last ↦
          let e : val / 10 ≡ 0 = ground arith in
          rw (more, e, digits_onto_zero f ((val % 10 + 48) ∷ ds)) (omega arith)
      | inr further ↦
          rw more
            (digits_onto_first f (val / 10) ((val % 10 + 48) ∷ ds) (ground arith) (omega arith))
    ]

-- For a 64-bit number, the characters are decimal digits that name the number, without a leading
-- zero but for 0 itself, and at most 20 of them, which fit the buffer of 32.
pub digits-value :
    (val : ℕ)
    → val < 2 ^ 64
    → (value (digits val) 0 ≡ val)
      × All IsDigit (digits val)
      × (length (digits val) ≤ 20)
      × (get_or (digits val) 0 0 ≡ 48 → val ≡ 0)
unfolding digits value
digits-value val small = elim (Bool-cases (val == 0)) [
  | inl ends ↦
      let e : val ≡ 0 = ground arith in
      rw e (refl, ((omega arith, omega arith), tt), omega arith, λ h. refl)
  | inr more ↦ rw more (
    digits_onto-value 20 val [] (omega arith),
    digits_onto-IsDigit 20 val [] tt,
    length-digits_onto 20 val [],
    λ zero_first. absurd (digits_onto_first 20 val [] (ground arith) (omega arith) zero_first),
  )
]
