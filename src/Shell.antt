-- ===== src/Shell.antt =====
-- src/kernel/shell.c: the loop of `shell_run`, which edits a line and runs the command that it names.
-- What the loop does to the outside is a list of calls; the commands are told apart by name only.
pub mod HeapTest
pub mod PmmTest
mod Line
mod Refine
mod Tests
use barium.Prelude.{
  ℕ, ◌+◌, ◌-◌, Bool, true, false, ◌&&◌, Option, none, some, List, [], ◌∷◌, ◌++◌, ◌==◌, ltb, leb,
  if◌then◌else◌, set, replicate,
}
use barium.Text.{b_strcmp, is_zero}

-- The functions that the commands call; `help` and `unknown` print a line.
pub data Command : Type 0 where
  gdttest tsstest ringtest pmmtest idttest vmmtest tasks heaptest timertest schedtest coretest
        shstest help unknown :
      Command

-- The calls of `shell_run`. `active` prints "shell active", `prompt` prints "> ", and `sleep` is `sched_sleep(10)`.
pub data Call : Type 0 where
  active prompt newline backspace sleep : Call
  putc : ℕ → Call
  command : Command → Call

-- `cmd` and `pos`.
pub record Shell : Type 0 where
  pub cmd : List ℕ
  pub pos : ℕ

-- The state in which a line begins.
abbrev pub blank_line : Shell
blank_line = record { cmd = replicate 64 0; pos = 0 }

-- What a character does to the line: its call, or the end of the line.
pub data Reaction : Type 0 where
  goes_on : List Call → Shell → Reaction
  ends : Reaction

-- The body of the inner loop, for a character of the keyboard.
pub shell_key : Shell → ℕ → Reaction
shell_key s c =
    if c == 0
    then goes_on (sleep ∷ []) s
    else if c == 10
    then ends
    else if c == 8
    then (if ltb 0 s.pos
        then goes_on (backspace ∷ []) (record { cmd = set s.cmd (s.pos - 1) 0; pos = s.pos - 1 })
        else goes_on [] s)
    else if leb 32 c && leb c 126
    then (if ltb s.pos 63
        then goes_on (putc c ∷ []) (record { cmd = set s.cmd s.pos c; pos = s.pos + 1 })
        else goes_on [] s)
    else goes_on [] s

-- The names in the order in which they are compared.
abbrev pub names : List (List ℕ × Command)
names =
    ((103 ∷ 100 ∷ 116 ∷ 116 ∷ 101 ∷ 115 ∷ 116 ∷ []), gdttest)
    ∷ ((116 ∷ 115 ∷ 115 ∷ 116 ∷ 101 ∷ 115 ∷ 116 ∷ []), tsstest)
    ∷ ((114 ∷ 105 ∷ 110 ∷ 103 ∷ 116 ∷ 101 ∷ 115 ∷ 116 ∷ []), ringtest)
    ∷ ((112 ∷ 109 ∷ 109 ∷ 116 ∷ 101 ∷ 115 ∷ 116 ∷ []), pmmtest)
    ∷ ((105 ∷ 100 ∷ 116 ∷ 116 ∷ 101 ∷ 115 ∷ 116 ∷ []), idttest)
    ∷ ((118 ∷ 109 ∷ 109 ∷ 116 ∷ 101 ∷ 115 ∷ 116 ∷ []), vmmtest)
    ∷ ((116 ∷ 97 ∷ 115 ∷ 107 ∷ 115 ∷ []), tasks)
    ∷ ((104 ∷ 101 ∷ 97 ∷ 112 ∷ 116 ∷ 101 ∷ 115 ∷ 116 ∷ []), heaptest)
    ∷ ((116 ∷ 105 ∷ 109 ∷ 101 ∷ 114 ∷ 116 ∷ 101 ∷ 115 ∷ 116 ∷ []), timertest)
    ∷ ((115 ∷ 99 ∷ 104 ∷ 101 ∷ 100 ∷ 116 ∷ 101 ∷ 115 ∷ 116 ∷ []), schedtest)
    ∷ ((99 ∷ 111 ∷ 114 ∷ 101 ∷ 116 ∷ 101 ∷ 115 ∷ 116 ∷ []), coretest)
    ∷ ((115 ∷ 104 ∷ 115 ∷ 116 ∷ 101 ∷ 115 ∷ 116 ∷ []), shstest)
    ∷ ((104 ∷ 101 ∷ 108 ∷ 112 ∷ []), help)
    ∷ []

-- The comparisons behind a line, over the names that are left.
unfoldable pub find_command : List (List ℕ × Command) → Shell → List Call
find_command [] s = if ltb 0 s.pos then command unknown ∷ [] else []
find_command ((name, c) ∷ others) s =
    let later = find_command others s in
    if is_zero (b_strcmp s.cmd name) then command c ∷ [] else later

-- The calls of the loop, from inside a line on, for the characters that the keyboard gives.
pub shell_line : List ℕ → Shell → List Call
shell_line [] s = []
shell_line (c ∷ cs) s =
    let next = shell_line cs in
    elim (shell_key s c) [
      | goes_on calls s' ↦ calls ++ next s'
      | ends ↦ newline ∷ find_command names s ++ (prompt ∷ next blank_line)
    ]

pub shell_run : List ℕ → List Call
shell_run cs = active ∷ prompt ∷ shell_line cs blank_line
