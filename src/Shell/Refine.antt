-- ===== src/Shell/Refine.antt =====
-- The shell as its user sees it, and that the code is that shell.
use barium.Prelude.{
  ℕ, ◌≡◌, ◌↔◌, refl, ap, ◌∙◌, Bool, true, false, ◌&&◌, List, [], ◌∷◌, ◌++◌, ◌==◌, ltb, leb,
  if◌then◌else◌, length, arith, All, Bool-cases, inl, inr,
}
use barium.Text.{c_string, b_strcmp, is_zero}
use barium.Text.Laws.{b_strcmp_iff}
use barium.Keyboard.{Keyboard, Event, run}
use barium.Keyboard.Invariant.{IsValid}
use barium.Keyboard.Refine.{pending, run_queue, run_refines}
use barium.Shell.Line.{
  Types, drop_last, blank_line-Types, Types-putc, Types-backspace, c_string_same,
}
use barium.Shell.{
  Shell, Command, unknown, Call, active, prompt, newline, backspace, sleep, putc, command,
  shell_key, names, find_command, shell_line, shell_run,
}

unfoldable pub same_text : List ℕ → List ℕ → Bool
same_text [] [] = true
same_text [] (y ∷ ys) = false
same_text (x ∷ xs) [] = false
same_text (x ∷ xs) (y ∷ ys) = (x == y) && same_text xs ys

-- The command of a line: the one it names, none for the empty line.
unfoldable pub command_of : List (List ℕ × Command) → List ℕ → List Call
command_of [] l = if length l == 0 then [] else command unknown ∷ []
command_of ((name, c) ∷ others) l =
    let later = command_of others l in if same_text l name then command c ∷ [] else later

-- A shell that edits a line of at most 63 characters: it puts a printable character behind the line
-- if there is room, takes the last one away, runs the line's command at its end, and sleeps when no
-- character waits.
unfoldable pub edit : List ℕ → List ℕ → List Call
edit [] l = []
edit (c ∷ cs) l =
    let added = edit cs (l ++ (c ∷ [])) in
    let same = edit cs l in
    let dropped = edit cs (drop_last l) in
    let fresh = edit cs [] in
    if c == 0
    then sleep ∷ same
    else if c == 10
    then newline ∷ command_of names l ++ (prompt ∷ fresh)
    else if c == 8
    then (if length l == 0 then same else backspace ∷ dropped)
    else if leb 32 c && leb c 126
    then (if ltb (length l) 63 then putc c ∷ added else same)
    else same

same_text_iff : (xs ys : List ℕ) → (same_text xs ys ≡ true) ↔ (xs ≡ ys)
unfolding same_text
same_text_iff [] [] = (λ h. refl, λ h. refl)
same_text_iff [] (y ∷ ys) = (λ h. ground arith, λ h. ground arith)
same_text_iff (x ∷ xs) [] = (λ h. ground arith, λ h. ground arith)
same_text_iff (x ∷ xs) (y ∷ ys) =
    (λ h. ground (arith, same_text_iff xs ys), λ h. ground (arith, same_text_iff xs ys))

b_strcmp-same_text :
    (buffer name l : List ℕ)
    → c_string buffer ≡ l
    → c_string name ≡ name
    → is_zero (b_strcmp buffer name) ≡ same_text l name
b_strcmp-same_text buffer name l holds plain =
    ground (arith, b_strcmp_iff buffer name, same_text_iff l name, holds, plain)

abbrev Plain : List ℕ × Command → Type 0
Plain (name, c) = c_string name ≡ name

names-Plain : All Plain names
unfolding c_string
names-Plain = (
  refl,
  (
    refl,
    (refl, (refl, (refl, (refl, (refl, (refl, (refl, (refl, (refl, (refl, (refl, tt))))))))))),
  ),
)

find_command_same :
    (table : List (List ℕ × Command)) (s : Shell) (l : List ℕ)
    → All Plain table
    → c_string s.cmd ≡ l
    → s.pos ≡ length l
    → find_command table s ≡ command_of table l
unfolding find_command command_of
find_command_same [] s l plain holds at = ground (arith, at)
find_command_same ((name, c) ∷ others) s l plain holds at = ground (
  arith,
  b_strcmp-same_text s.cmd name l holds plain.0,
  find_command_same others s l plain.1 holds at,
)

Types-find_command :
    {s : Shell} {l : List ℕ} → Types s l → find_command names s ≡ command_of names l
Types-find_command {s} {l} v =
    find_command_same names s l names-Plain
      (c_string_same s.cmd l (omega (arith, v.room, v.short)) v.same v.visible) v.at

shell_line_refines :
    (cs : List ℕ) {s : Shell} {l : List ℕ} → Types s l → shell_line cs s ≡ edit cs l
unfolding shell_line edit shell_key
shell_line_refines [] v = refl
shell_line_refines (c ∷ cs) {s} {l} v =
    let same = shell_line_refines cs v in
    let found = Types-find_command v in
    let fresh = shell_line_refines cs blank_line-Types in
    let at = v.at in
    elim (Bool-cases (c == 0)) [
      | inl e ↦ rw (shell_line, shell_key, e) (ap (λ r. sleep ∷ r) same)
      | inr e ↦ elim (Bool-cases (c == 10)) [
        | inl e' ↦
            rw (shell_line, shell_key, e, e') (ap (λ r. newline ∷ r) (rw (found, fresh) refl))
        | inr e' ↦ elim (Bool-cases (c == 8)) [
          | inl e'' ↦ elim (Bool-cases (length l == 0)) [
            | inl none_left ↦
                rw (shell_line, shell_key, e, e', e'') (ground (arith, none_left, at, same))
            | inr some_left ↦
                let back = shell_line_refines cs (Types-backspace (ground arith) v) in
                let go : ltb 0 s.pos ≡ true = ground (arith, at) in
                rw (shell_line, shell_key, e, e', e'', some_left, go) (ap (λ r. backspace ∷ r) back)
          ]
          | inr e'' ↦ elim (Bool-cases (leb 32 c && leb c 126)) [
            | inl shown ↦ elim (Bool-cases (ltb (length l) 63)) [
              | inl fits ↦
                  let more = shell_line_refines cs (Types-putc c (ground arith) (ground arith) v) in
                  let go : ltb s.pos 63 ≡ true = ground (arith, at) in
                  rw (shell_line, shell_key, e, e', e'', shown, fits, go)
                    (ap (λ r. putc c ∷ r) more)
              | inr full ↦
                  let stop : ltb s.pos 63 ≡ false = ground (arith, at) in
                  rw (shell_line, shell_key, e, e', e'', shown, full, stop) same
            ]
            | inr hidden ↦ rw (shell_line, shell_key, e, e', e'', hidden) same
          ]
        ]
      ]
    ]

-- Whatever is typed and whenever the shell reads, its calls are those of the shell that edits a
-- line of at most 63 characters and runs the command that the line names, fed by a queue of at
-- most 127 characters: if the keyboard's buffer is valid to begin with.
pub shell_run_refines :
    (es : List Event) {k : Keyboard}
    → IsValid k
    → shell_run (run k es) ≡ active ∷ prompt ∷ edit (run_queue (pending k) es) []
unfolding shell_run
shell_run_refines es {k} v =
    ap (λ r. active ∷ prompt ∷ r)
      (shell_line_refines (run k es) blank_line-Types ∙ ap (λ cs. edit cs []) (run_refines es v))
