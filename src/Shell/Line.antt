-- ===== src/Shell/Line.antt =====
-- The line that the buffer of the shell holds.
use barium.Prelude.{
  ℕ, zero, suc, ◌+◌, ◌-◌, ◌≤◌, ◌<◌, ◌≡◌, refl, ap₂, ◌∙◌, false, List, [], ◌∷◌, ◌++◌, ◌==◌,
  if◌then◌else◌, get_or, set, length, length-set, get_or-set, get_or-append, length-append,
  length-replicate, replicate, arith,
}
use barium.Text.{c_string}
use barium.Shell.{Shell, blank_line}

unfoldable pub drop_last : List ℕ → List ℕ
drop_last [] = []
drop_last (x ∷ []) = []
drop_last (x ∷ (y ∷ ys)) = x ∷ drop_last (y ∷ ys)

pub length-drop_last : (xs : List ℕ) → length (drop_last xs) ≡ length xs - 1
unfolding drop_last
length-drop_last [] = refl
length-drop_last (x ∷ []) = refl
length-drop_last (x ∷ (y ∷ ys)) = omega (arith, length-drop_last (y ∷ ys))

get_or-drop_last :
    (xs : List ℕ) (i : ℕ)
    → get_or (drop_last xs) i 0 ≡ (if suc i == length xs then 0 else get_or xs i 0)
unfolding drop_last
get_or-drop_last [] i = ground arith
get_or-drop_last (x ∷ []) zero = ground arith
get_or-drop_last (x ∷ []) (suc i) = ground arith
get_or-drop_last (x ∷ (y ∷ ys)) zero = ground arith
get_or-drop_last (x ∷ (y ∷ ys)) (suc i) = ground (arith, get_or-drop_last (y ∷ ys) i)

-- The buffer holds the line, with zeros behind it.
pub record Types (s : Shell) (l : List ℕ) : Type 0 where
  pub room : length s.cmd ≡ 64
  pub at : s.pos ≡ length l
  pub short : length l ≤ 63
  pub same : (i : ℕ) → get_or s.cmd i 0 ≡ get_or l i 0
  pub visible : (i : ℕ) → i < length l → 0 < get_or l i 0

get_or-replicate : (n i : ℕ) → get_or (replicate n zero) i zero ≡ zero
get_or-replicate zero i = refl
get_or-replicate (suc n) zero = refl
get_or-replicate (suc n) (suc i) = get_or-replicate n i

pub blank_line-Types : Types blank_line []
blank_line-Types = record {
  room = length-replicate {A = ℕ} 64 0;
  at = refl;
  short = omega arith;
  same = λ i. get_or-replicate 64 i;
  visible = λ i lt. absurd (omega arith);
}

pub Types-putc :
    {s : Shell} {l : List ℕ} (c : ℕ)
    → 0 < c
    → length l < 63
    → Types s l
    → Types (record { cmd = set s.cmd s.pos c; pos = s.pos + 1 }) (l ++ (c ∷ []))
Types-putc {s} {l} c visible_c fits v = record {
  room = length-set s.cmd s.pos c ∙ v.room;
  at = omega (arith, v.at, length-append {A = ℕ} l (c ∷ []));
  short = omega (arith, length-append {A = ℕ} l (c ∷ []));
  same = λ i.
      ground (arith, get_or-append l c i 0, get_or-set s.cmd s.pos i c 0, v.at, v.room, v.same i);
  visible =
      λ i lt. ground (arith, get_or-append l c i 0, length-append {A = ℕ} l (c ∷ []), v.visible i);
}

pub Types-backspace :
    {s : Shell} {l : List ℕ}
    → 0 < length l
    → Types s l
    → Types (record { cmd = set s.cmd (s.pos - 1) 0; pos = s.pos - 1 }) (drop_last l)
Types-backspace {s} {l} some_left v = record {
  room = length-set s.cmd (s.pos - 1) 0 ∙ v.room;
  at = omega (arith, v.at, length-drop_last l);
  short = omega (arith, v.short, length-drop_last l);
  same = λ i. ground (
    arith,
    get_or-drop_last l i,
    get_or-set s.cmd (s.pos - 1) i 0 0,
    v.at,
    v.short,
    v.room,
    v.same i,
  );
  visible = λ i lt. ground (arith, get_or-drop_last l i, length-drop_last l, v.visible i);
}

-- A buffer that reads like a line of characters that are not 0 holds it as a string.
pub c_string_same :
    (xs l : List ℕ)
    → length l ≤ length xs
    → ((i : ℕ) → get_or xs i 0 ≡ get_or l i 0)
    → ((i : ℕ) → i < length l → 0 < get_or l i 0)
    → c_string xs ≡ l
unfolding c_string
c_string_same [] [] fits same visible = refl
c_string_same [] (y ∷ ys) fits same visible = absurd (omega arith)
c_string_same (x ∷ xs) [] fits same visible = ground (arith, same 0)
c_string_same (x ∷ xs) (y ∷ ys) fits same visible =
    let later =
      c_string_same xs ys (omega arith) (λ i. same (suc i))
        (λ i lt. visible (suc i) (omega arith)) in
    let first = same zero in
    let some_y = visible zero (omega arith) in
    let go : (x == 0) ≡ false = ground arith in rw go (ap₂ (λ a r. a ∷ r) first later)
