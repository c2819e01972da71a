-- ===== src/Console/Cursor.antt =====
-- The cursor stays where a character fits, and printing stays inside the frame buffer.
use barium.Prelude.{
  ℕ, ◌+◌, ◌-◌, ◌^◌, ◌≤◌, ◌<◌, List, [], ◌∷◌, ◌==◌, leb, arith, Bool-cases, inl, inr,
}
use barium.Console.{
  Console, u32, console_rect, glyph_rows, place, wrap_line, wrap_page, console_putchar,
  console_print,
}
use barium.Console.Frame.{Keeps, Keeps-trans, Draws-refl, rect_rows-Draws, glyph_rows-Draws}

-- A character fits at the cursor, and the screen holds one line of two characters at least.
pub record IsConsole (s : Console) : Type 0 where
  pub wide : 18 < s.width
  pub high : 18 < s.height
  pub width_bound : s.width < 2 ^ 31
  pub height_bound : s.height < 2 ^ 31
  pub lines_fit : s.width ≤ s.stride
  pub x_fits : s.cursor_x + 8 < s.width
  pub y_fits : s.cursor_y + 8 < s.height

-- Between the drawing and the wraps, the cursor may stand behind the edge by less than a character.
abbrev Placed : Console → Console → Type 0
Placed s s' = Keeps s s' × (s'.cursor_x < s.width + 1) × (s'.cursor_y < s.height + 12)

Keeps-cursor :
    (s s' : Console) (x y : ℕ) → Keeps s s' → Keeps s (record s' { cursor_x = x; cursor_y = y })
Keeps-cursor s s' x y d = record {
  same_width = d.same_width;
  same_height = d.same_height;
  same_stride = d.same_stride;
  behind_frame = d.behind_frame;
}

place-Placed :
    (behind : ℕ → ℕ) (s : Console) (c color : ℕ) → IsConsole s → Placed s (place behind s c color)
unfolding place console_rect
place-Placed behind s c color v =
    let here = (Draws-refl s).0 in
    let back = record s { cursor_x = s.cursor_x - 9 } in
    let erased = rect_rows-Draws 8 back (s.cursor_x - 9) s.cursor_y 8 0 0x1B1B1B v.lines_fit in
    let drawn = glyph_rows-Draws 8 behind s c color 0 v.lines_fit in
    elim (Bool-cases (c == 10)) [
      | inl newline ↦
          rw newline (Keeps-cursor s s 10 (u32 (s.cursor_y + 12)) here, omega arith, omega arith)
      | inr other ↦ elim (Bool-cases (c == 13)) [
        | inl start ↦
            rw (other, start) (Keeps-cursor s s 10 s.cursor_y here, omega arith, omega arith)
        | inr other' ↦ elim (Bool-cases (c == 8)) [
          | inl backspace ↦ elim (Bool-cases (leb 9 s.cursor_x)) [
            | inl room ↦
                rw (other, other', backspace, room)
                  (
                    Keeps-trans s back _ (Keeps-cursor s s (s.cursor_x - 9) s.cursor_y here)
                        erased.0,
                    omega (arith, erased.1),
                    omega (arith, erased.2),
                  )
            | inr edge ↦ rw (other, other', backspace, edge) (here, omega arith, omega arith)
          ]
          | inr shown ↦
              rw (other, other', shown)
                (
                  Keeps-cursor s (glyph_rows 8 behind s c color 0) _ _ drawn.0,
                  omega (arith, drawn.1),
                  omega (arith, drawn.2),
                )
        ]
      ]
    ]

-- The wraps bring the cursor back to where a character fits.
wrap_line-fits :
    (s s' : Console)
    → IsConsole s
    → Placed s s'
    → Keeps s (wrap_line s')
      × ((wrap_line s').cursor_x + 8 < s.width)
      × ((wrap_line s').cursor_y < s.height + 24)
unfolding wrap_line
wrap_line-fits s s' v p = elim (Bool-cases (leb s'.width (u32 (s'.cursor_x + 8)))) [
  | inl over ↦
      rw over (
        Keeps-cursor s s' 10 (u32 (s'.cursor_y + 12)) p.0,
        omega (arith, v.wide),
        omega (arith, p.2),
      )
  | inr fits ↦ rw fits (p.0, ground (arith, p.0.same_width, p.1, v.width_bound), omega (arith, p.2))
]

wrap_page-IsConsole :
    (s s' : Console)
    → IsConsole s
    → Keeps s s'
    → s'.cursor_x + 8 < s.width
    → s'.cursor_y < s.height + 24
    → Keeps s (wrap_page s') × IsConsole (wrap_page s')
unfolding wrap_page
wrap_page-IsConsole s s' v k x y = elim (Bool-cases (leb s'.height (u32 (s'.cursor_y + 8)))) [
  | inl over ↦ rw over (
    Keeps-cursor s s' 10 10 k,
    record {
      wide = omega (arith, k.same_width, v.wide);
      high = omega (arith, k.same_height, v.high);
      width_bound = omega (arith, k.same_width, v.width_bound);
      height_bound = omega (arith, k.same_height, v.height_bound);
      lines_fit = omega (arith, k.same_width, k.same_stride, v.lines_fit);
      x_fits = omega (arith, k.same_width, v.wide);
      y_fits = omega (arith, k.same_height, v.high);
    },
  )
  | inr fits ↦ rw fits (
    k,
    record {
      wide = omega (arith, k.same_width, v.wide);
      high = omega (arith, k.same_height, v.high);
      width_bound = omega (arith, k.same_width, v.width_bound);
      height_bound = omega (arith, k.same_height, v.height_bound);
      lines_fit = omega (arith, k.same_width, k.same_stride, v.lines_fit);
      x_fits = omega (arith, k.same_width, x);
      y_fits = ground (arith, k.same_height, v.height_bound, y);
    },
  )
]

putchar-IsConsole :
    (behind : ℕ → ℕ) (s : Console) (c color : ℕ)
    → IsConsole s
    → Keeps s (console_putchar behind s c color) × IsConsole (console_putchar behind s c color)
unfolding console_putchar
putchar-IsConsole behind s c color v =
    let placed = place-Placed behind s c color v in
    let line = wrap_line-fits s (place behind s c color) v placed in
    wrap_page-IsConsole s (wrap_line (place behind s c color)) v line.0 line.1 line.2

-- Printing any characters leaves the memory behind the last line as it was, keeps the geometry, and
-- leaves the cursor where a character fits, on a screen of more than 18 by 18 pixels. The font may
-- be read behind its end for characters from 128 on.
pub console_print-IsConsole :
    (cs : List ℕ) (behind : ℕ → ℕ) (s : Console)
    → IsConsole s
    → Keeps s (console_print behind s cs) × IsConsole (console_print behind s cs)
unfolding console_print
console_print-IsConsole [] behind s v = ((Draws-refl s).0, v)
console_print-IsConsole (c ∷ cs) behind s v =
    let first = putchar-IsConsole behind s c 0xFFFFFF v in
    let s' = console_putchar behind s c 0xFFFFFF in
    let later = console_print-IsConsole cs behind s' first.1 in
    elim (Bool-cases (c == 0)) [
      | inl ends ↦ rw ends ((Draws-refl s).0, v)
      | inr more ↦ rw more (Keeps-trans s s' _ first.0 later.0, later.1)
    ]
