-- ===== src/Keyboard/Invariant.antt =====
-- The invariant of the keyboard buffer: the indices stay inside it.
use barium.Prelude.{ℕ, ◌<◌, ◌≡◌, arith, length, length-set}
use barium.Keyboard.{Keyboard, keyboard_init, enqueue, keyboard_handler, keyboard_get_char}

pub record IsValid (k : Keyboard) : Type 0 where
  pub room : length k.buffer ≡ 128
  pub head_in : k.head < 128
  pub tail_in : k.tail < 128

pub keyboard_init-IsValid :
    (k : Keyboard) (status : ℕ → ℕ) (config : ℕ)
    → length k.buffer ≡ 128
    → IsValid (keyboard_init k status config).0
unfolding keyboard_init
keyboard_init-IsValid k status config h = record {
  room = h;
  head_in = omega arith;
  tail_in = omega arith;
}

pub enqueue-IsValid : {k : Keyboard} (c : ℕ) → IsValid k → IsValid (enqueue k c)
unfolding enqueue
enqueue-IsValid {k} c v = ground (arith, length-set k.buffer k.head c)

pub keyboard_handler-IsValid : {k : Keyboard} (s : ℕ) → IsValid k → IsValid (keyboard_handler k s)
unfolding keyboard_handler
keyboard_handler-IsValid {k} s v = grind (arith, enqueue-IsValid)

pub keyboard_get_char-IsValid : {k : Keyboard} → IsValid k → IsValid (keyboard_get_char k).1
unfolding keyboard_get_char
keyboard_get_char-IsValid v = ground arith
