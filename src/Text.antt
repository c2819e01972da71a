-- ===== src/Text.antt =====
-- The string functions of src/kernel/lib.c, on buffers of characters. A read behind the end of a
-- buffer gives 0, the terminator.
pub mod Laws
mod Tests
use barium.Prelude.{
  ℕ, zero, suc, ◌+◌, ◌-◌, List, [], ◌∷◌, ◌==◌, ltb, if◌then◌else◌, get_or, set, Bool, true, false,
}

-- A C `int`.
pub data ℤ : Type 0 where
  pos : ℕ → ℤ
  negsuc : ℕ → ℤ

-- The difference of two characters.
abbrev pub difference : ℕ → ℕ → ℤ
difference a b = if ltb a b then negsuc (b - a - 1) else pos (a - b)

abbrev pub is_zero : ℤ → Bool
is_zero (pos n) = n == 0
is_zero (negsuc n) = false

abbrev pub rest : List ℕ → List ℕ
rest [] = []
rest (x ∷ xs) = xs

unfoldable pub b_strcmp : List ℕ → List ℕ → ℤ
b_strcmp [] ys = difference 0 (get_or ys 0 0)
b_strcmp (x ∷ xs) ys =
    let later = b_strcmp xs (rest ys) in
    if x == 0
    then difference x (get_or ys 0 0)
    else if x == get_or ys 0 0
    then later
    else difference x (get_or ys 0 0)

-- From the index `i` on, `n` characters.
unfoldable pub b_memcmp : ℕ → List ℕ → List ℕ → ℕ → ℤ
b_memcmp zero xs ys i = pos 0
b_memcmp (suc n) xs ys i =
    let later = b_memcmp n xs ys (i + 1) in
    if get_or xs i 0 == get_or ys i 0 then later else difference (get_or xs i 0) (get_or ys i 0)

-- Writes behind the end of `dest` are not modelled; a caller gives a buffer with room.
pub b_memcpy : ℕ → List ℕ → List ℕ → ℕ → List ℕ
b_memcpy zero dest src i = dest
b_memcpy (suc n) dest src i = b_memcpy n (set dest i (get_or src i 0)) src (i + 1)

pub b_strcpy : List ℕ → List ℕ → ℕ → List ℕ
b_strcpy dest [] i = set dest i 0
b_strcpy dest (c ∷ src) i =
    let later = b_strcpy (set dest i c) src (i + 1) in if c == 0 then set dest i 0 else later

-- The string in a buffer: what stands before the terminator.
unfoldable pub c_string : List ℕ → List ℕ
c_string [] = []
c_string (x ∷ xs) = if x == 0 then [] else x ∷ c_string xs
