-- ===== src/Console.antt =====
-- src/kernel/console.c: characters on the frame buffer. Each call holds `console_lock`.
pub mod Font
mod Frame
mod Cursor
mod Digits
mod Tests
use Prim.Native.Nat.{bit_and}
use barium.Prelude.{
  ℕ, zero, suc, ◌+◌, ◌-◌, ◌*◌, ◌/◌, ◌%◌, ◌^◌, Bool, ◌||◌, List, [], ◌∷◌, ◌==◌, ltb, leb,
  if◌then◌else◌, get_or,
}
use barium.Console.Font.{font8x8_basic}

abbrev pub u32 : ℕ → ℕ
u32 n = n % 2 ^ 32

-- The pixels by index; `console_lock` is not kept.
pub record Console : Type 0 where
  pub framebuffer : ℕ → ℕ
  pub width : ℕ
  pub height : ℕ
  pub stride : ℕ
  pub cursor_x : ℕ
  pub cursor_y : ℕ

-- The fields of the boot information that the console takes.
pub console_init : Console → (framebuffer : ℕ → ℕ) (width height pixels_per_scan_line : ℕ) → Console
console_init s fb w h p = record s { framebuffer = fb; width = w; height = h; stride = p }

abbrev pub write_pixel : (ℕ → ℕ) → ℕ → ℕ → ℕ → ℕ
write_pixel fb i v j = if j == i then v else fb j

pub console_put_pixel : Console → (x y color : ℕ) → Console
console_put_pixel s x y color =
    if leb s.width x || leb s.height y
    then s
    else record s { framebuffer = write_pixel s.framebuffer (u32 (y * s.stride + x)) color }

-- The inner loop of `console_rect_unlocked`, from the column `j` on.
pub rect_row : ℕ → Console → (x y j color : ℕ) → Console
rect_row zero s x y j color = s
rect_row (suc n) s x y j color =
    rect_row n (console_put_pixel s (u32 (x + j)) y color) x y (j + 1) color

pub rect_rows : ℕ → Console → (x y w i color : ℕ) → Console
rect_rows zero s x y w i color = s
rect_rows (suc n) s x y w i color =
    rect_rows n (rect_row w s x (u32 (y + i)) 0 color) x y w (i + 1) color

pub console_rect : Console → (x y w h color : ℕ) → Console
console_rect s x y w h color = rect_rows h s x y w 0 color

-- A byte of the font. The table ends at 128: behind it stands whatever follows it in memory.
pub glyph : (ℕ → ℕ) → ℕ → ℕ → ℕ
glyph behind c i =
    if ltb c 128 then get_or (get_or font8x8_basic c []) i 0 else behind ((c - 128) * 8 + i)

-- The pixel in column `j` of row `i` of a character; then the columns of a row, and the rows.
pub glyph_pixel : (ℕ → ℕ) → Console → (c color i j : ℕ) → Console
glyph_pixel behind s c color i j =
    if bit_and (glyph behind c i) (2 ^ j) == 0
    then s
    else console_put_pixel s (u32 (s.cursor_x + j)) (u32 (s.cursor_y + i)) color

pub glyph_row : ℕ → (ℕ → ℕ) → Console → (c color i j : ℕ) → Console
glyph_row zero behind s c color i j = s
glyph_row (suc n) behind s c color i j =
    glyph_row n behind (glyph_pixel behind s c color i j) c color i (j + 1)

pub glyph_rows : ℕ → (ℕ → ℕ) → Console → (c color i : ℕ) → Console
glyph_rows zero behind s c color i = s
glyph_rows (suc n) behind s c color i =
    glyph_rows n behind (glyph_row 8 behind s c color i 0) c color (i + 1)

-- The first half of `console_putchar_unlocked`; `c` is the character as a byte.
pub place : (ℕ → ℕ) → Console → (c color : ℕ) → Console
place behind s c color =
    if c == 10
    then record s { cursor_x = 10; cursor_y = u32 (s.cursor_y + 12) }
    else if c == 13
    then record s { cursor_x = 10 }
    else if c == 8
    then (if leb 9 s.cursor_x
        then console_rect (record s { cursor_x = s.cursor_x - 9 }) (s.cursor_x - 9) s.cursor_y 8 8
            0x1B1B1B
        else s)
    else (let drawn = glyph_rows 8 behind s c color 0 in
        record drawn { cursor_x = u32 (drawn.cursor_x + 9) })

-- The two tests at its end.
pub wrap_line : Console → Console
wrap_line s =
    if leb s.width (u32 (s.cursor_x + 8))
    then record s { cursor_x = 10; cursor_y = u32 (s.cursor_y + 12) }
    else s

pub wrap_page : Console → Console
wrap_page s =
    if leb s.height (u32 (s.cursor_y + 8)) then record s { cursor_x = 10; cursor_y = 10 } else s

pub console_putchar : (ℕ → ℕ) → Console → (c color : ℕ) → Console
console_putchar behind s c color = wrap_page (wrap_line (place behind s c color))

-- The loops of `console_clear`.
pub console_clear : Console → (color : ℕ) → Console
console_clear s color = record (rect_rows s.height s 0 0 s.width 0 color) {
  cursor_x = 10;
  cursor_y = 10;
}

pub console_putc : (ℕ → ℕ) → Console → ℕ → Console
console_putc behind s c = console_putchar behind s c 0xFFFFFF

-- The characters up to the terminator.
unfoldable pub console_print : (ℕ → ℕ) → Console → List ℕ → Console
console_print behind s [] = s
console_print behind s (c ∷ cs) =
    let later = console_print behind (console_putchar behind s c 0xFFFFFF) cs in
    if c == 0 then s else later

-- `buf` of `console_print_num_unlocked`, read from its end: the most significant digit first.
pub digits_onto : (fuel : ℕ) → ℕ → List ℕ → List ℕ
digits_onto zero val ds = ds
digits_onto (suc fuel) val ds =
    let more = digits_onto fuel (val / 10) ((val % 10 + 48) ∷ ds) in if val == 0 then ds else more

pub digits : ℕ → List ℕ
digits val = if val == 0 then 48 ∷ [] else digits_onto 20 val []

pub console_print_num : (ℕ → ℕ) → Console → ℕ → Console
console_print_num behind s val = console_print behind s (digits val)
