-- ===== src/Shell/PmmTest.antt =====
-- `pmmtest` of src/kernel/shell.c over the pages of Pmm.antt and the words of memory. `none` is a write
-- through the null pointer.
pub mod Pages
mod Tests
use Prim.Native.Nat.{bit_xor}
use barium.Prelude.{
  ℕ, zero, suc, ◌+◌, Bool, true, false, Option, none, some, List, [], ◌∷◌, ◌==◌, if◌then◌else◌,
  ◌>>=◌,
}
use barium.Pmm.{Pmm, pmm_alloc, pmm_free, pmm_get_total_memory, pmm_get_free_memory}
use barium.Vmm.{Words, write_word}

-- The lines that it prints.
pub data Line : Type 0 where
  testing_pmm alloc alloc_failed ok stress pass pmm_works : Line
  memory : (ram free : ℕ) → Line

-- `0xDEADC0DE ^ (uint64_t)pages[i]`
abbrev pub stamp : ℕ → ℕ
stamp p = bit_xor 0xdeadc0de p

-- The loop that allocates `n` pages and writes a word to each.
unfoldable pub take : ℕ → Pmm → Words → Option (List ℕ × Pmm × Words)
take zero s w = some ([], s, w)
take (suc n) s w = do
  let (p, s') = pmm_alloc s 1
  rest ← if p == 0 then none else take n s' (write_word w p (stamp p))
  some (p ∷ rest.0, rest.1, rest.2)

-- The loop that reads the words: its `ok`.
unfoldable pub intact : List ℕ → Words → Bool
intact [] w = true
intact (p ∷ ps) w = let later = intact ps w in if w p == stamp p then later else false

-- The loop that frees the pages.
unfoldable pub give_back : List ℕ → Pmm → Pmm
give_back [] s = s
give_back (p ∷ ps) s = give_back ps (pmm_free s p 1)

abbrev pub end_lines : Bool → List Line
end_lines true = pass ∷ pmm_works ∷ []
end_lines false = pmm_works ∷ []

abbrev pub first_lines : Pmm → Line → List Line → List Line
first_lines s first later =
    testing_pmm ∷ memory (pmm_get_total_memory s) (pmm_get_free_memory s) ∷ alloc ∷ first ∷ later

-- The second stage: `ok`, and what it leaves.
unfoldable pub stress_pages : Pmm → Words → Option (Bool × Pmm × Words)
stress_pages s w = do t ← take 256 s w; some (intact t.0 t.2, give_back t.0 t.1, t.2)

unfoldable pub pmmtest : Pmm → Words → Option (List Line × Pmm × Words)
pmmtest s w =
    let (p, s₁) = pmm_alloc s 1 in
    let second = stress_pages (pmm_free s₁ p 1) w in
    if p == 0 then some (first_lines s alloc_failed [], s₁, w) else elim second [
      | none ↦ none
      | some (intact, s', w') ↦ some (first_lines s ok (stress ∷ end_lines intact), s', w')
    ]
