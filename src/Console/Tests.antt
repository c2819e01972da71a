-- ===== src/Console/Tests.antt =====
-- A screen of 800 by 600 pixels, and a number.
use barium.Prelude.{ℕ, ◌≡◌, ◌≤◌, refl, arith, List, [], ◌∷◌, All, length, get_or}
use barium.Console.{Console, console_print, digits, digits_onto}
use barium.Console.Frame.{Keeps}
use barium.Console.Cursor.{IsConsole, console_print-IsConsole}
use barium.Console.Digits.{IsDigit, value, digits-value}

abbrev screen : Console
screen = record {
  framebuffer = λ i. 0;
  width = 800;
  height = 600;
  stride = 832;
  cursor_x = 10;
  cursor_y = 10;
}

screen-IsConsole : IsConsole screen
screen-IsConsole = record {
  wide = omega arith;
  high = omega arith;
  width_bound = omega arith;
  height_bound = omega arith;
  lines_fit = omega arith;
  x_fits = omega arith;
  y_fits = omega arith;
}

-- "ok", a new line and a backspace.
abbrev line : List ℕ
line = 111 ∷ 107 ∷ 10 ∷ 8 ∷ []

console_print-IsConsole_example :
    Keeps screen (console_print (λ i. 0) screen line)
    × IsConsole (console_print (λ i. 0) screen line)
console_print-IsConsole_example = console_print-IsConsole line (λ i. 0) screen screen-IsConsole

abbrev number : ℕ
number = 1024

digits_1024 : digits number ≡ 49 ∷ 48 ∷ 50 ∷ 52 ∷ []
unfolding digits digits_onto
digits_1024 = refl

digits-value_example :
    (value (digits number) 0 ≡ number)
    × All IsDigit (digits number)
    × (length (digits number) ≤ 20)
    × (get_or (digits number) 0 0 ≡ 48 → number ≡ 0)
digits-value_example = digits-value number (omega arith)
