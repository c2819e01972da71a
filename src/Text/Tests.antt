-- ===== src/Text/Tests.antt =====
-- Runs of the string functions.
use barium.Prelude.{ℕ, ◌≡◌, refl, List, [], ◌∷◌}
use barium.Text.{b_strcmp, negsuc}

-- "ps" and "pci".
abbrev ps : List ℕ
ps = 112 ∷ 115 ∷ []

abbrev pci : List ℕ
pci = 112 ∷ 99 ∷ 105 ∷ []

compare_test : b_strcmp pci ps ≡ negsuc 15
unfolding b_strcmp
compare_test = refl
