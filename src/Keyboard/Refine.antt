-- ===== src/Keyboard/Refine.antt =====
-- The keyboard buffer is a queue of at most 127 characters, none of which is 0.
use barium.Prelude.{
  ℕ, ◌≡◌, refl, ap, ◌∙◌, inl, inr, List, [], ◌∷◌, ◌++◌, arith, ◌==◌, ltb, if◌then◌else◌, length,
  get_or, Bool-cases, List-cases,
}
use barium.Prelude.Window.{
  next_index, next-eq-mod, contents, contents-write, contents-read, contents_empty, contents_full,
  contents_room,
}
use barium.Keyboard.{
  Keyboard, Event, press, read, scancode_table, enqueue, keyboard_handler, keyboard_get_char, run,
}
use barium.Keyboard.Invariant.{IsValid, keyboard_handler-IsValid, keyboard_get_char-IsValid}

length-scancode_table : length scancode_table ≡ 58
unfolding scancode_table
length-scancode_table = refl

-- The characters that wait, oldest first.
abbrev pub pending : Keyboard → List ℕ
pending k = contents 0 k.buffer 128 k.tail k.head

-- The specification: a queue of at most 127 characters that drops what does not fit.
pub offer : List ℕ → ℕ → List ℕ
offer q c = if ltb (length q) 127 then q ++ (c ∷ []) else q

-- The specification of a key press: the character of the scan code, if it has one.
pub offer_key : List ℕ → ℕ → List ℕ
offer_key q s =
    if ltb s 58
    then (if get_or scancode_table s 0 == 0 then q else offer q (get_or scancode_table s 0))
    else q

pub run_queue : List ℕ → List Event → List ℕ
run_queue q [] = []
run_queue q (press s ∷ es) = run_queue (offer_key q s) es
run_queue [] (read ∷ es) = 0 ∷ run_queue [] es
run_queue (c ∷ q) (read ∷ es) = c ∷ run_queue q es

-- Under the lock a character is queued, or dropped when 127 characters wait.
enqueue-offer : {k : Keyboard} (c : ℕ) → IsValid k → pending (enqueue k c) ≡ offer (pending k) c
unfolding enqueue offer
enqueue-offer {k} c v = elim (Bool-cases (next_index 128 k.head == k.tail)) [
  | inl full ↦ ground (
    arith,
    next-eq-mod 128 k.head v.head_in,
    contents_full 0 k.buffer 128 k.tail k.head v.tail_in v.head_in,
  )
  | inr room ↦ ground (
    arith,
    next-eq-mod 128 k.head v.head_in,
    contents_room 0 k.buffer 128 k.tail k.head v.tail_in v.head_in,
    contents-write 0 k.buffer 128 k.tail k.head c,
  )
]

-- A key press queues the character of its scan code, if the code has one and there is room.
pub keyboard_handler-offer :
    {k : Keyboard} (s : ℕ) → IsValid k → pending (keyboard_handler k s) ≡ offer_key (pending k) s
unfolding keyboard_handler offer_key
keyboard_handler-offer {k} s v =
    ground (arith, enqueue-offer (get_or scancode_table s 0) v, length-scancode_table)

-- A read of the empty buffer returns 0 and changes nothing.
get_char_empty : (k : Keyboard) → IsValid k → pending k ≡ [] → keyboard_get_char k ≡ (0, k)
unfolding keyboard_get_char
get_char_empty k v e =
    ground (arith, contents-read 0 k.buffer 128 k.tail k.head v.tail_in v.head_in)

-- A read takes the oldest character.
get_char_cons :
    (k : Keyboard) {c : ℕ} {q : List ℕ}
    → IsValid k
    → pending k ≡ c ∷ q
    → let (d, k') = keyboard_get_char k in (d ≡ c) × (pending k' ≡ q)
unfolding keyboard_get_char
get_char_cons k v e = ground (
  arith,
  contents-read 0 k.buffer 128 k.tail k.head v.tail_in v.head_in,
  next-eq-mod 128 k.tail v.tail_in,
  contents_empty 0 k.buffer 128 k.tail,
)

-- For every sequence of key presses and reads, the characters that the reads return are those of
-- a queue of at most 127 characters: in the order typed, dropped only when 127 wait, and 0 when none waits.
pub run_refines : (es : List Event) {k : Keyboard} → IsValid k → run k es ≡ run_queue (pending k) es
unfolding run run_queue
run_refines [] v = refl
run_refines (press s ∷ es) {k} v =
    run_refines es (keyboard_handler-IsValid s v)
    ∙ ap (λ q. run_queue q es) (keyboard_handler-offer s v)
run_refines (read ∷ es) {k} v =
    let later = run_refines es (keyboard_get_char-IsValid v) in
    elim (List-cases (pending k)) [
      | inl e ↦ rw e (ground (arith, get_char_empty k v e, later))
      | inr e ↦ rw (e.2) (ground (arith, get_char_cons k v e.2, later))
    ]
