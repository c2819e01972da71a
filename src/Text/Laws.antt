-- ===== src/Text/Laws.antt =====
-- What comparing and copying strings comes to.
use barium.Prelude.{
  ℕ, zero, suc, ◌+◌, ◌≡◌, ◌≢◌, ◌<◌, ◌≤◌, ◌↔◌, refl, ap, List, [], ◌∷◌, ◌==◌, ltb, leb, ◌&&◌,
  if◌then◌else◌, get_or, set, true, false, arith, inl, inr, Bool-cases, length, length-set,
  get_or-set,
}
use barium.Text.{is_zero, difference, b_strcmp, b_memcmp, b_memcpy, b_strcpy, c_string}

-- A comparison answers 0 exactly for equal strings.
pub b_strcmp_iff :
    (xs ys : List ℕ) → (is_zero (b_strcmp xs ys) ≡ true) ↔ (c_string xs ≡ c_string ys)
unfolding b_strcmp c_string
b_strcmp_iff [] [] = (λ h. refl, λ h. refl)
b_strcmp_iff [] (y ∷ ys) = (λ h. ground arith, λ h. ground arith)
b_strcmp_iff (x ∷ xs) [] =
    (λ h. ground (arith, b_strcmp_iff xs []), λ h. ground (arith, b_strcmp_iff xs []))
b_strcmp_iff (x ∷ xs) (y ∷ ys) =
    (λ h. ground (arith, b_strcmp_iff xs ys), λ h. ground (arith, b_strcmp_iff xs ys))

difference_ne : (a b : ℕ) → (a == b) ≡ false → is_zero (difference a b) ≢ true
difference_ne a b ne h = ground arith

-- A comparison of `n` bytes answers 0 exactly when all of them agree.
pub b_memcmp_iff :
    (n : ℕ) (xs ys : List ℕ) (i : ℕ)
    → (is_zero (b_memcmp n xs ys i) ≡ true)
      ↔ ((j : ℕ) → i ≤ j → j < i + n → get_or xs j 0 ≡ get_or ys j 0)
unfolding b_memcmp
b_memcmp_iff zero xs ys i = (λ h j lo hi. absurd (omega arith), λ h. refl)
b_memcmp_iff (suc n) xs ys i =
    let later = b_memcmp_iff n xs ys (i + 1) in
    elim (Bool-cases (get_or xs i 0 == get_or ys i 0)) [
      | inl same ↦
          let here : get_or xs i 0 ≡ get_or ys i 0 = ground arith in
          rw same (
            λ h j lo hi. elim (Bool-cases (j == i)) [
              | inl at ↦ let e : j ≡ i = ground arith in rw e here
              | inr past ↦ later.0 h j (ground arith) (omega arith)
            ],
            λ h. later.1 (λ j lo hi. h j (omega arith) (omega arith)),
          )
      | inr differ ↦ rw differ (
        λ h. absurd (difference_ne (get_or xs i 0) (get_or ys i 0) differ h),
        λ h. absurd (let e = h i (omega arith) (omega arith) in ground (arith, e)),
      )
    ]

-- A copy puts the source's bytes in place, and leaves the others.
pub b_memcpy-get :
    (n : ℕ) (dest src : List ℕ) (i j : ℕ)
    → i + n ≤ length dest
    → get_or (b_memcpy n dest src i) j 0
      ≡ (if leb i j && ltb j (i + n) then get_or src j 0 else get_or dest j 0)
unfolding b_memcpy
b_memcpy-get zero dest src i j room = ground arith
b_memcpy-get (suc n) dest src i j room =
    let v = get_or src i 0 in
    let later = b_memcpy-get n (set dest i v) src (i + 1) j (omega (arith, length-set dest i v)) in
    elim (Bool-cases (i == j)) [
      | inl same ↦
          let e : i ≡ j = ground arith in rw (← e) (ground (arith, later, get_or-set dest i i v 0))
      | inr other ↦ ground (arith, later, get_or-set dest i j v 0)
    ]

b_strcpy_behind :
    (x : ℕ) (dest src : List ℕ) (i : ℕ) → b_strcpy (x ∷ dest) src (suc i) ≡ x ∷ b_strcpy dest src i
unfolding b_strcpy
b_strcpy_behind x dest [] i = refl
b_strcpy_behind x dest (c ∷ src) i =
    let e : suc i + 1 ≡ suc (i + 1) = omega arith in
    ground (arith, e, b_strcpy_behind x (set dest i c) src (i + 1))

-- A string with room for its terminator comes out of the buffer that it was copied into.
pub c_string-b_strcpy :
    (dest src : List ℕ)
    → length (c_string src) < length dest
    → c_string (b_strcpy dest src 0) ≡ c_string src
unfolding b_strcpy c_string
c_string-b_strcpy [] src room = absurd (omega arith)
c_string-b_strcpy (d ∷ dest) [] room = refl
c_string-b_strcpy (d ∷ dest) (c ∷ src) room = elim (Bool-cases (c == 0)) [
  | inl ends ↦ rw ends refl
  | inr more ↦
      let e : 0 + 1 ≡ suc zero = omega arith in
      rw (more, e, b_strcpy_behind c dest src 0, more)
        (ap (λ r. c ∷ r) (c_string-b_strcpy dest src (ground arith)))
]

pub length-c_string : (xs : List ℕ) → length (c_string xs) ≤ length xs
unfolding c_string
length-c_string [] = omega arith
length-c_string (x ∷ xs) = ground (arith, length-c_string xs)
