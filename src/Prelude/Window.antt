-- ===== src/Prelude/Window.antt =====
-- The elements that a circular buffer holds: the buffers of the keyboard and of a message port
-- keep one slot free, and hold what stands from the read index up to the write index.
use Prim.Native.Nat.{ℕ, zero, suc, ◌+◌, ◌-◌, ◌%◌, ◌≤◌, ◌<◌}
use mathlib.Core.Path.{◌≡◌, refl, ap, ap₂}
use mathlib.Core.Logic.{◌≢◌, ◌↔◌}
use mathlib.Core.List.{List, [], ◌∷◌, ◌++◌}
use native.Mathlib.Omega.{arith}
use native.Mathlib.Decide.{dec_lt}
use native.Mathlib.Nat.{mod-eq_of_lt, mod_self}
use barium.Prelude.Tests.{leb, ◌==◌, if◌then◌else◌}
use barium.Prelude.Lists.{length, get_or, set, get_or-set_self, get_or-set_ne}

-- The index behind `i`, without a division.
abbrev pub next_index : ℕ → ℕ → ℕ
next_index n i = if i + 1 == n then 0 else i + 1

-- How many steps lead from `r` to `w` round a buffer of `n` slots.
abbrev used : ℕ → ℕ → ℕ → ℕ
used n r w = if leb r w then w - r else w + n - r

pub next-eq-mod : (n i : ℕ) → i < n → (i + 1) % n ≡ next_index n i
next-eq-mod n i h = elim (dec_lt (i + 1) n) [
  | yes p ↦ ground (arith, mod-eq_of_lt p)
  | no p ↦ let e : i + 1 ≡ n = omega arith in rw e (ground (arith, mod_self n))
]

pub next-lt : (n i : ℕ) → i < n → next_index n i < n
next-lt n i h = ground arith

-- The slots round from `r` to `w`, when `w` moves on and when `r` does.
used-write :
    (n r w : ℕ) → r < n → w < n → next_index n w ≢ r → used n r (next_index n w) ≡ suc (used n r w)
used-write n r w hr hw ne = ground arith

used-read : (n r w : ℕ) → r < n → w < n → r ≢ w → used n r w ≡ suc (used n (next_index n r) w)
used-read n r w hr hw ne = ground arith

used-lt : (n r w : ℕ) → r < n → w < n → used n r w < n
used-lt n r w hr hw = ground arith

used_full : (n r w : ℕ) → r < n → w < n → next_index n w ≡ r → used n r w + 1 ≡ n
used_full n r w hr hw e = ground arith

used-eq-zero_iff : (n r w : ℕ) → r < n → w < n → (used n r w ≡ 0) ↔ (r ≡ w)
used-eq-zero_iff n r w hr hw = (λ e. ground arith, λ e. ground arith)

used_self : (n r : ℕ) → used n r r ≡ 0
used_self n r = ground arith

module _ {ℓ} {A : Type ℓ} (d : A) where
  window : List A → ℕ → ℕ → ℕ → List A
  window buf n r zero = []
  window buf n r (suc k) = get_or buf r d ∷ window buf n (next_index n r) k

  pub contents : List A → ℕ → ℕ → ℕ → List A
  contents buf n r w = window buf n r (used n r w)

  length-window : (buf : List A) (n r k : ℕ) → length (window buf n r k) ≡ k
  unfolding window
  length-window buf n r zero = refl
  length-window buf n r (suc k) = ap suc (length-window buf n (next_index n r) k)

  -- The window from `r` over `k` slots ends at `w`: a write at `w` extends it.
  window-set :
      (buf : List A) (n r w k : ℕ) (x : A)
      → n ≤ length buf
      → r < n
      → w < n
      → used n r w ≡ k
      → k + 1 < n
      → window (set buf w x) n r (suc k) ≡ window buf n r k ++ (x ∷ [])
  unfolding window
  window-set buf n r w zero x hb hr hw e hk =
      let same : r ≡ w = (used-eq-zero_iff n r w hr hw).0 e in
      rw same (rw (get_or-set_self buf w x d (omega arith)))
  window-set buf n r w (suc k) x hb hr hw e hk =
      ap₂ ◌∷◌ (get_or-set_ne buf x d (ground arith)) (
        window-set buf n (next_index n r) w k x hb (next-lt n r hr) hw (ground arith) (omega arith))

  -- A write into a free slot appends to the contents.
  pub contents-write :
      (buf : List A) (n r w : ℕ) (x : A)
      → n ≤ length buf
      → r < n
      → w < n
      → next_index n w ≢ r
      → contents (set buf w x) n r (next_index n w) ≡ contents buf n r w ++ (x ∷ [])
  unfolding contents
  contents-write buf n r w x hb hr hw ne =
      rw (used-write n r w hr hw ne)
        (window-set buf n r w (used n r w) x hb hr hw refl (ground arith))

  -- A read takes the head of the contents.
  pub contents-read :
      (buf : List A) (n r w : ℕ)
      → r < n
      → w < n
      → r ≢ w
      → contents buf n r w ≡ get_or buf r d ∷ contents buf n (next_index n r) w
  unfolding window contents
  contents-read buf n r w hr hw ne = rw (used-read n r w hr hw ne)

  pub contents_empty : (buf : List A) (n r : ℕ) → contents buf n r r ≡ []
  unfolding window contents
  contents_empty buf n r = rw (used_self n r)

  pub contents_full :
      (buf : List A) (n r w : ℕ)
      → r < n
      → w < n
      → next_index n w ≡ r
      → length (contents buf n r w) + 1 ≡ n
  unfolding contents
  contents_full buf n r w hr hw e =
      rw (length-window buf n r (used n r w)) (used_full n r w hr hw e)

  pub contents_room :
      (buf : List A) (n r w : ℕ)
      → r < n
      → w < n
      → next_index n w ≢ r
      → length (contents buf n r w) + 1 < n
  unfolding contents
  contents_room buf n r w hr hw ne = rw (length-window buf n r (used n r w)) (ground arith)
