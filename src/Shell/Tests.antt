-- ===== src/Shell/Tests.antt =====
-- Runs of the shell at concrete inputs.
use barium.Prelude.{◌≡◌, refl, [], ◌∷◌, arith}
use barium.Keyboard.{blank, press, read, run}
use barium.Keyboard.Invariant.{IsValid}
use barium.Keyboard.Refine.{pending, run_queue}
use barium.Text.{b_strcmp}
use barium.Shell.{
  shell_run, shell_line, shell_key, find_command, active, prompt, putc, backspace, newline, sleep,
  command, tasks, unknown,
}
use barium.Shell.Refine.{edit, shell_run_refines}

-- "tasl", a correction, a pause, the end of the line, and a line with one letter.
typed_tasks :
    shell_run (116 ∷ 97 ∷ 115 ∷ 108 ∷ 8 ∷ 107 ∷ 0 ∷ 115 ∷ 10 ∷ 104 ∷ 10 ∷ [])
    ≡ active
      ∷ prompt
      ∷ putc 116
      ∷ putc 97
      ∷ putc 115
      ∷ putc 108
      ∷ backspace
      ∷ putc 107
      ∷ sleep
      ∷ putc 115
      ∷ newline
      ∷ command tasks
      ∷ prompt
      ∷ putc 104
      ∷ newline
      ∷ command unknown
      ∷ prompt
      ∷ []
unfolding shell_run shell_line shell_key find_command b_strcmp
typed_tasks = refl

blank-IsValid : IsValid blank
blank-IsValid = omega arith

-- The letter h, a release code and the end of the line.
shell_run_refines_example :
    shell_run (run blank (press 0x23 ∷ read ∷ press 0xa3 ∷ read ∷ press 0x1c ∷ read ∷ []))
    ≡ active
      ∷ prompt
      ∷ edit
          (run_queue
            (pending blank)
            (press 0x23 ∷ read ∷ press 0xa3 ∷ read ∷ press 0x1c ∷ read ∷ []))
          []
shell_run_refines_example =
    shell_run_refines (press 0x23 ∷ read ∷ press 0xa3 ∷ read ∷ press 0x1c ∷ read ∷ []) blank-IsValid
