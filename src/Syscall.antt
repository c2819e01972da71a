-- ===== src/Syscall.antt =====
-- src/kernel/syscall.c: the system calls, over the machine of Idt/Handler.antt. The entry that saves
-- the registers is assembly.
mod Exit
mod Tests
use barium.Prelude.{ℕ, ◌+◌, ◌/◌, ◌*◌, ◌%◌, ◌^◌, List, [], ◌∷◌, ◌++◌, ◌==◌, leb, if◌then◌else◌}
use barium.Sched.Reschedule.{sched_exit}
use barium.Idt.Handler.{Machine}

-- What `console_print` finds at an address that a thread passes: the characters up to the terminator;
-- or a character that cannot be read, with the vector of the exception and the characters before it.
pub data Read : Type 0 where
  text : List ℕ → Read
  faults : (shown : List ℕ) → (vector : ℕ) → Read

-- What the handler prints: a new line, characters, a message and a number.
pub data Print : Type 0 where
  newline : Print
  string : List ℕ → Print
  bad_syscall : Print
  unknown_syscall : Print
  number : ℕ → Print

-- It returns to the caller, waits in `sched_exit`, or raises an exception in the kernel, inside
-- `console_print` with the console's lock held.
pub data Answer : Type 0 where
  returns : Machine → List Print → Answer
  waits : Machine → Answer
  raises : Machine → (vector : ℕ) → List Print → Answer

-- The call of `console_print` and the line after it.
abbrev pub print_string : Machine → Read → Answer
print_string m (text s) = returns m (newline ∷ string s ∷ newline ∷ [])
print_string m (faults shown vector) = raises m vector (newline ∷ string shown ∷ [])

-- `read` says what stands at an address.
pub syscall_handler : (read : ℕ → Read) → Machine → (syscall_no arg1 : ℕ) → Answer
syscall_handler read m syscall_no arg1 =
    if syscall_no == 1
    then print_string m (read arg1)
    else if syscall_no == 2
    then waits (record m { cpu = sched_exit m.cpu })
    else if leb 256 syscall_no
    then returns m (bad_syscall ∷ number syscall_no ∷ newline ∷ [])
    else returns m (unknown_syscall ∷ number syscall_no ∷ newline ∷ [])

-- A write of a model specific register.
pub record MsrWrite : Type 0 where
  pub register : ℕ
  pub value : ℕ

abbrev pub b_wrmsr : ℕ → ℕ → MsrWrite
b_wrmsr r v = record { register = r; value = v }

-- `efer` is what the first register held; `efer | 1` sets its lowest bit.
pub syscall_init : (efer syscall_entry : ℕ) → List MsrWrite
syscall_init efer syscall_entry =
    b_wrmsr 0xC0000080 (efer / 2 * 2 + 1)
    ∷ b_wrmsr 0xC0000081 0x0010000800000000
    ∷ b_wrmsr 0xC0000082 syscall_entry
    ∷ b_wrmsr 0xC0000084 0x200
    ∷ []
