-- ===== src/Console/Frame.antt =====
-- Drawing stays inside the frame buffer.
use barium.Prelude.{
  ℕ, zero, suc, ◌+◌, ◌*◌, ◌^◌, ◌≤◌, ◌<◌, ◌≡◌, refl, ap₂, ◌∙◌, ◌==◌, leb, ◌||◌, arith, Bool-cases,
  inl, inr,
}
use native.Mathlib.Nat.{suc-mul, mul-le-mul_right}
use Prim.Native.Nat.{bit_and}
use barium.Console.{
  Console, u32, console_put_pixel, rect_row, rect_rows, glyph, glyph_pixel, glyph_row, glyph_rows,
}

-- The geometry stays, and all memory behind the last line.
pub record Keeps (s s' : Console) : Type 0 where
  pub same_width : s'.width ≡ s.width
  pub same_height : s'.height ≡ s.height
  pub same_stride : s'.stride ≡ s.stride
  pub behind_frame : (i : ℕ) → s.height * s.stride ≤ i → s'.framebuffer i ≡ s.framebuffer i

pub Keeps-trans : (s s' s'' : Console) → Keeps s s' → Keeps s' s'' → Keeps s s''
Keeps-trans s s' s'' d e =
    let same : s'.height * s'.stride ≡ s.height * s.stride =
      ap₂ (λ a b. a * b) d.same_height d.same_stride in
    record {
      same_width = e.same_width ∙ d.same_width;
      same_height = e.same_height ∙ d.same_height;
      same_stride = e.same_stride ∙ d.same_stride;
      behind_frame = λ i h. e.behind_frame i (omega (arith, same, h)) ∙ d.behind_frame i h;
    }

-- Drawing keeps the cursor too.
abbrev pub Draws : Console → Console → Type 0
Draws s s' = Keeps s s' × (s'.cursor_x ≡ s.cursor_x) × (s'.cursor_y ≡ s.cursor_y)

pub Draws-refl : (s : Console) → Draws s s
Draws-refl s = (
  record { same_width = refl; same_height = refl; same_stride = refl; behind_frame = λ i h. refl },
  refl,
  refl,
)

Draws-trans : (s s' s'' : Console) → Draws s s' → Draws s' s'' → Draws s s''
Draws-trans s s' s'' d e = (Keeps-trans s s' s'' d.0 e.0, e.1 ∙ d.1, e.2 ∙ d.2)

pixel_below :
    (y x height stride i : ℕ)
    → y < height
    → x < stride
    → height * stride ≤ i
    → u32 (y * stride + x) < i
pixel_below y x height stride i hy hx h =
    omega (arith, suc-mul y stride, mul-le-mul_right {m = suc y} {n = height} stride hy, hx, h)

put_pixel-Draws :
    (s : Console) (x y color : ℕ) → s.width ≤ s.stride → Draws s (console_put_pixel s x y color)
unfolding console_put_pixel
put_pixel-Draws s x y color fits = elim (Bool-cases (leb s.width x || leb s.height y)) [
  | inl outside ↦ rw outside (Draws-refl s)
  | inr inside ↦ rw inside (
    record {
      same_width = refl;
      same_height = refl;
      same_stride = refl;
      behind_frame = λ i h.
          let below = pixel_below y x s.height s.stride i (ground arith) (ground arith) h in
          ground arith;
    },
    refl,
    refl,
  )
]

-- A step that draws, between states in which the lines fit.
still_fits : (s s' : Console) → Draws s s' → s.width ≤ s.stride → s'.width ≤ s'.stride
still_fits s s' d fits = omega (arith, d.0.same_width, d.0.same_stride)

rect_row-Draws :
    (n : ℕ) (s : Console) (x y j color : ℕ)
    → s.width ≤ s.stride
    → Draws s (rect_row n s x y j color)
unfolding rect_row
rect_row-Draws zero s x y j color fits = Draws-refl s
rect_row-Draws (suc n) s x y j color fits =
    let s' = console_put_pixel s (u32 (x + j)) y color in
    let first = put_pixel-Draws s (u32 (x + j)) y color fits in
    Draws-trans s s' _ first (rect_row-Draws n s' x y (j + 1) color (still_fits s s' first fits))

pub rect_rows-Draws :
    (n : ℕ) (s : Console) (x y w i color : ℕ)
    → s.width ≤ s.stride
    → Draws s (rect_rows n s x y w i color)
unfolding rect_rows
rect_rows-Draws zero s x y w i color fits = Draws-refl s
rect_rows-Draws (suc n) s x y w i color fits =
    let s' = rect_row w s x (u32 (y + i)) 0 color in
    let first = rect_row-Draws w s x (u32 (y + i)) 0 color fits in
    Draws-trans s s' _ first (rect_rows-Draws n s' x y w (i + 1) color (still_fits s s' first fits))

glyph_pixel-Draws :
    (behind : ℕ → ℕ) (s : Console) (c color i j : ℕ)
    → s.width ≤ s.stride
    → Draws s (glyph_pixel behind s c color i j)
unfolding glyph_pixel
glyph_pixel-Draws behind s c color i j fits =
    elim (Bool-cases (bit_and (glyph behind c i) (2 ^ j) == 0)) [
      | inl clear ↦ rw clear (Draws-refl s)
      | inr lit ↦
          rw lit (put_pixel-Draws s (u32 (s.cursor_x + j)) (u32 (s.cursor_y + i)) color fits)
    ]

glyph_row-Draws :
    (n : ℕ) (behind : ℕ → ℕ) (s : Console) (c color i j : ℕ)
    → s.width ≤ s.stride
    → Draws s (glyph_row n behind s c color i j)
unfolding glyph_row
glyph_row-Draws zero behind s c color i j fits = Draws-refl s
glyph_row-Draws (suc n) behind s c color i j fits =
    let s' = glyph_pixel behind s c color i j in
    let first = glyph_pixel-Draws behind s c color i j fits in
    Draws-trans s s' _ first
      (glyph_row-Draws n behind s' c color i (j + 1) (still_fits s s' first fits))

pub glyph_rows-Draws :
    (n : ℕ) (behind : ℕ → ℕ) (s : Console) (c color i : ℕ)
    → s.width ≤ s.stride
    → Draws s (glyph_rows n behind s c color i)
unfolding glyph_rows
glyph_rows-Draws zero behind s c color i fits = Draws-refl s
glyph_rows-Draws (suc n) behind s c color i fits =
    let s' = glyph_row 8 behind s c color i 0 in
    let first = glyph_row-Draws 8 behind s c color i 0 fits in
    Draws-trans s s' _ first
      (glyph_rows-Draws n behind s' c color (i + 1) (still_fits s s' first fits))
