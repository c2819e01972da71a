-- ===== src/Keyboard/Tests.antt =====
-- Runs of the keyboard model at concrete inputs.
use barium.Prelude.{◌≡◌, refl, [], ◌∷◌, arith}
use barium.Keyboard.Invariant.{IsValid}
use barium.Keyboard.Refine.{pending, run_queue, run_refines}
use barium.Keyboard.{
  blank, enqueue, press, read, scancode_table, keyboard_handler, keyboard_get_char, run,
}

-- `h`, `i`, a release code, and three reads.
typed :
    run blank (press 0x23 ∷ press 0x17 ∷ press 0xa3 ∷ read ∷ read ∷ read ∷ []) ≡ 104 ∷ 105 ∷ 0 ∷ []
unfolding run enqueue keyboard_handler keyboard_get_char scancode_table
typed = refl

blank-IsValid : IsValid blank
blank-IsValid = omega arith

run_refines_example :
    run blank (press 0x23 ∷ read ∷ read ∷ [])
    ≡ run_queue (pending blank) (press 0x23 ∷ read ∷ read ∷ [])
run_refines_example = run_refines (press 0x23 ∷ read ∷ read ∷ []) blank-IsValid
