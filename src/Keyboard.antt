-- ===== src/Keyboard.antt =====
-- src/kernel/keyboard.c: the buffer between the keyboard interrupt and its readers. Each function
-- holds `kbd_lock` with interrupts off while it reads or writes the buffer, so a call is one step.
pub mod Invariant
pub mod Refine
mod Tests
use barium.Prelude.{
  ℕ, zero, suc, ◌+◌, ◌*◌, ◌/◌, ◌%◌, List, [], ◌∷◌, ◌++◌, ◌==◌, ltb, if◌then◌else◌, get_or, set,
  replicate, length,
}

-- `kbd_buffer`, `kbd_head` and `kbd_tail`.
pub record Keyboard : Type 0 where
  pub buffer : List ℕ
  pub head : ℕ
  pub tail : ℕ

-- `scancode_table`, as ASCII codes.
pub scancode_table : List ℕ
scancode_table =
    0 ∷ 27 ∷ 49 ∷ 50 ∷ 51 ∷ 52 ∷ 53 ∷ 54 ∷ 55 ∷ 56 ∷ 57 ∷ 48 ∷ 45 ∷ 61 ∷ 8 ∷ 9 ∷ 113 ∷ 119 ∷ 101
    ∷ 114 ∷ 116 ∷ 121 ∷ 117 ∷ 105 ∷ 111 ∷ 112 ∷ 91 ∷ 93 ∷ 10 ∷ 0 ∷ 97 ∷ 115 ∷ 100 ∷ 102 ∷ 103 ∷ 104
    ∷ 106 ∷ 107 ∷ 108 ∷ 59 ∷ 39 ∷ 96 ∷ 0 ∷ 92 ∷ 122 ∷ 120 ∷ 99 ∷ 118 ∷ 98 ∷ 110 ∷ 109 ∷ 44 ∷ 46 ∷ 47
    ∷ 0 ∷ 42 ∷ 0 ∷ 32 ∷ []

-- The state before `keyboard_init`, with the zeroed static buffer.
abbrev pub blank : Keyboard
blank = record { buffer = replicate 128 0; head = 0; tail = 0 }

-- An access to a port: `inb` reads a byte, `outb` writes one; `b_io_wait` writes 0 to port 0x80.
pub data PortCall : Type 0 where
  inb : (port : ℕ) → PortCall
  outb : (port value : ℕ) → PortCall

-- The loop of `keyboard_init` that empties the controller, for at most `n` bytes more; `status i` is
-- what its status port answers at the `i`th look.
pub drain : (n : ℕ) → (status : ℕ → ℕ) → (i : ℕ) → List PortCall
drain zero status i = []
drain (suc n) status i =
    let later = drain n status (i + 1) in
    inb 0x64 ∷ (if status i % 2 == 0 then [] else inb 0x60 ∷ outb 0x80 0 ∷ later)

-- The rest, which sets the lowest bit of the controller's configuration byte `config`.
pub configure : (config : ℕ) → List PortCall
configure config =
    outb 0x64 0x20
    ∷ outb 0x80 0
    ∷ inb 0x60
    ∷ outb 0x64 0x60
    ∷ outb 0x80 0
    ∷ outb 0x60 (config / 2 * 2 + 1)
    ∷ []

pub keyboard_init : Keyboard → (status : ℕ → ℕ) → (config : ℕ) → Keyboard × List PortCall
keyboard_init k status config =
    (record k { head = 0; tail = 0 }, drain 1000 status 0 ++ configure config)

-- The body under the lock in `keyboard_handler`.
pub enqueue : Keyboard → ℕ → Keyboard
enqueue k c =
    let next = (k.head + 1) % 128 in
    if next == k.tail then k else record k { buffer = set k.buffer k.head c; head = next }

-- `scancode` is what `b_inb(0x60)` returns.
pub keyboard_handler : Keyboard → ℕ → Keyboard
keyboard_handler k scancode =
    if ltb scancode (length scancode_table)
    then (let c = get_or scancode_table scancode 0 in if c == 0 then k else enqueue k c)
    else k

pub keyboard_get_char : Keyboard → ℕ × Keyboard
keyboard_get_char k =
    if k.head == k.tail
    then (0, k)
    else (get_or k.buffer k.tail 0, record k { tail = (k.tail + 1) % 128 })

-- What happens to the keyboard over time: an interrupt with its scan code, or a read.
pub data Event : Type 0 where
  press : ℕ → Event
  read : Event

-- The characters that the reads return, in order.
pub run : Keyboard → List Event → List ℕ
run k [] = []
run k (press s ∷ es) = run (keyboard_handler k s) es
run k (read ∷ es) = let (c, k') = keyboard_get_char k in c ∷ run k' es
