-- ===== src/Lock.antt =====
-- The console's lock: `spin_lock`, `spin_unlock`, `b_irq_save` and `b_irq_restore` of
-- src/kernel/lib.c around `console_print_unlocked`, as `console_print`, `console_putc` and
-- `console_lock_acquire` of src/kernel/console.c use them. The cores take their steps in any order,
-- and an interrupt may come to a core wherever it has interrupts on.
pub mod History
mod Moves
pub mod Serial
pub mod Progress
mod Tests
use barium.Prelude.{ℕ, Bool, true, false, List, [], ◌∷◌, ◌==◌, if◌then◌else◌}
use barium.Console.{Console, console_putchar}

-- Where a core is in a call that prints a text: before it; at the test-and-set of the lock; in the
-- loop that waits for the lock to look free; at a character, with the rest of the text; or behind
-- the release of the lock. `flags` is what `b_irq_save` returned.
pub data Phase : Type 0 where
  idle : Phase
  trying : (flags : Bool) (text : List ℕ) → Phase
  pausing : (flags : Bool) (text : List ℕ) → Phase
  printing : (flags : Bool) (rest : List ℕ) → Phase
  leaving : (flags : Bool) → Phase

-- A core: whether it takes interrupts, where it is, and where the activations are that interrupts
-- put off.
pub record Core : Type 0 where
  pub enabled : Bool
  pub phase : Phase
  pub suspended : List Phase

-- The cores, `console_lock`, and the console.
pub record Shared : Type 0 where
  pub cores : ℕ → Core
  pub lock : Bool
  pub console : Console

abbrev pub put_core : ℕ → Core → Shared → ℕ → Core
put_core i c s j = if j == i then c else s.cores j

-- `__sync_lock_test_and_set`, with what the lock held.
unfoldable pub test_and_set : (i : ℕ) (flags : Bool) (text : List ℕ) (lock : Bool) → Shared → Shared
test_and_set i f t true s = record s {
  cores = put_core i (record (s.cores i) { phase = pausing f t }) s;
}
test_and_set i f t false s = record s {
  cores = put_core i (record (s.cores i) { phase = printing f t }) s;
  lock = true;
}

-- The read of the lock in the loop that waits, which goes on as long as it is taken.
unfoldable pub look : (i : ℕ) (flags : Bool) (text : List ℕ) (lock : Bool) → Shared → Shared
look i f t true s = s
look i f t false s = record s { cores = put_core i (record (s.cores i) { phase = trying f t }) s }

-- The next step of the core `i`, which is at a phase.
unfoldable pub advance : (ℕ → ℕ) → (i : ℕ) → Phase → Shared → Shared
advance behind i idle s = s
advance behind i (trying f t) s = test_and_set i f t s.lock s
advance behind i (pausing f t) s = look i f t s.lock s
advance behind i (printing f []) s = record s {
  cores = put_core i (record (s.cores i) { phase = leaving f }) s;
  lock = false;
}
advance behind i (printing f (c ∷ cs)) s =
    if c == 0
    then record s { cores = put_core i (record (s.cores i) { phase = leaving f }) s; lock = false }
    else record s {
      cores = put_core i (record (s.cores i) { phase = printing f cs }) s;
      console = console_putchar behind s.console c 0xFFFFFF;
    }
advance behind i (leaving f) s = record s {
  cores = put_core i (record (s.cores i) { phase = idle; enabled = f }) s;
}

-- A core begins to print a text, which takes its flags and turns interrupts off; it takes its next
-- step; an interrupt comes to it; or it returns from the interrupt.
pub data Action : Type 0 where
  call : (i : ℕ) (text : List ℕ) → Action
  go : (i : ℕ) → Action
  interrupt : (i : ℕ) → Action
  iret : (i : ℕ) → Action

unfoldable pub begin : (i : ℕ) (text : List ℕ) → Phase → Shared → Shared
begin i t idle s = record s {
  cores =
      put_core i (record (s.cores i) { phase = trying (s.cores i).enabled t; enabled = false }) s;
}
begin i t (trying f u) s = s
begin i t (pausing f u) s = s
begin i t (printing f u) s = s
begin i t (leaving f) s = s

-- The gate turns interrupts off.
unfoldable pub enter : (i : ℕ) → Shared → Shared
enter i s =
    let c = s.cores i in
    if c.enabled
    then record s {
      cores =
          put_core i (record { enabled = false; phase = idle; suspended = c.phase ∷ c.suspended })
            s;
    }
    else s

-- The activation that was put off goes on, with interrupts on as they were.
unfoldable pub return_to : (i : ℕ) → Phase → List Phase → Shared → Shared
return_to i idle (p ∷ ps) s = record s {
  cores = put_core i (record { enabled = true; phase = p; suspended = ps }) s;
}
return_to i idle [] s = s
return_to i (trying f t) ps s = s
return_to i (pausing f t) ps s = s
return_to i (printing f t) ps s = s
return_to i (leaving f) ps s = s

unfoldable pub step : (ℕ → ℕ) → Action → Shared → Shared
step behind (call i t) s = begin i t (s.cores i).phase s
step behind (go i) s = advance behind i (s.cores i).phase s
step behind (interrupt i) s = enter i s
step behind (iret i) s = return_to i (s.cores i).phase (s.cores i).suspended s

-- The steps of all cores, in the order in which they happen.
unfoldable pub run : (ℕ → ℕ) → List Action → Shared → Shared
run behind [] s = s
run behind (a ∷ others) s = run behind others (step behind a s)

-- No core prints yet.
abbrev pub fresh : Console → Shared
fresh c = record {
  cores = λ i. record { enabled = true; phase = idle; suspended = [] };
  lock = false;
  console = c;
}
