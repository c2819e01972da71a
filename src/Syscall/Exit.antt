-- ===== src/Syscall/Exit.antt =====
-- What a system call does to the thread that makes it.
use barium.Prelude.{
  ℕ, ◌≡◌, ◌≢◌, refl, List, [], ◌∷◌, ◌==◌, leb, some, false, arith, Bool-cases, inl, inr,
}
use barium.Sched.Thread.{Thread}
use barium.Sched.Invariant.{IsValid}
use barium.Idt.Handler.{Machine, Trap, Effect, Handled, interrupt_handler}
use barium.Idt.Events.{Gone, exits, exits-Gone}
use barium.Syscall.{
  Read, text, faults, newline, string, Answer, returns, waits, raises, print_string,
  syscall_handler,
}

-- What a call other than 2 may come to: it goes back to its thread and changes no state, or the string
-- that it was to print cannot be read.
abbrev pub Kept : (ℕ → Read) → Machine → (call arg1 : ℕ) → Answer → Type 0
Kept read m call arg1 (returns m' prints) = m' ≡ m
Kept read m call arg1 (waits m') = ⊥
Kept read m call arg1 (raises m' vector prints) =
    (call ≡ 1)
    × (m' ≡ m)
    × ((shown : List ℕ) × (read arg1 ≡ faults shown vector)
        × (prints ≡ newline ∷ string shown ∷ []))

print_string-Kept :
    (read : ℕ → Read) (m : Machine) (arg1 : ℕ) (r : Read)
    → read arg1 ≡ r
    → Kept read m 1 arg1 (print_string m r)
print_string-Kept read m arg1 (text s) e = refl
print_string-Kept read m arg1 (faults shown vector) e = (refl, refl, (shown, e, refl))

-- If the CPU's queues are valid and it runs a thread: system call 2 of the thread does not return to
-- it, and the timer's next interrupt either finds no thread ready and changes none, or takes that thread
-- off the CPU, keeps each other, and frees its stacks and its record (nothing at priority 0). No other
-- system call stops its thread: it returns and changes no thread, no page and no key, or it is call 1
-- with a string that cannot be read, which raises an exception in the kernel behind the characters
-- before.
pub syscall_handler-Gone :
    (read : ℕ → Read) (m : Machine) (t : Thread) (later : Trap) (arg1 : ℕ)
    → IsValid m.cpu
    → m.cpu.sched_thread ≡ some t
    → later.int_no ≡ 0x20
    → ((m' : Machine) × (rsp : ℕ) × (m'' : Machine) × (effects : List Effect) × (syscall_handler
            read m 2 arg1
          ≡ waits m')
        × (interrupt_handler m' later ≡ Handled.returns rsp m'' effects)
        × Gone m t m'' effects)
      × ((call : ℕ) → call ≢ 2 → Kept read m call arg1 (syscall_handler read m call arg1))
unfolding syscall_handler
syscall_handler-Gone read m t later arg1 v e tick =
    let (rsp, m'', effects, run, gone) = exits-Gone m t later v e tick in
    (
      (exits m, rsp, m'', effects, unfold exits in refl, run, gone),
      λ call other.
          let ne : (call == 2) ≡ false = ground arith in
          elim (Bool-cases (call == 1)) [
            | inl e₁ ↦
                let at : call ≡ 1 = ground arith in
                rw at (print_string-Kept read m arg1 (read arg1) refl)
            | inr e₁ ↦ elim (Bool-cases (leb 256 call)) [
              | inl e₂ ↦ rw (e₁, ne, e₂) refl
              | inr e₂ ↦ rw (e₁, ne, e₂) refl
            ]
          ],
    )
