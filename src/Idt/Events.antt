-- ===== src/Idt/Events.antt =====
-- What comes of an exception of a user thread, and of a page fault in the test of page tables.
use barium.Prelude.{
  ℕ, ◌+◌, ◌%◌, ◌^◌, ◌<◌, ◌≡◌, ◌≢◌, ◌⊎◌, inl, inr, refl, ◌∙◌, Bool, true, false, ◌&&◌, ◌||◌, List,
  [], ◌∷◌, ◌++◌, map, ◌==◌, ltb, some, arith, Bool-cases,
}
use barium.Sched.Thread.{Thread, dead, ready, Cpu, queue}
use barium.Sched.Reschedule.{sched_reschedule, sched_exit}
use barium.Sched.Count.{on_cpu, one_if}
use barium.Sched.Invariant.{IsValid, IsCurrent}
use barium.Sched.Handover.{remains}
use barium.Sched.Contract.{sched_reschedule_dead}
use barium.Vmm.{Vmm}
use barium.Idt.Handler.{
  Machine, Trap, Effect, outb, apic_write, frees, print, user_exception, returns, waits, pic_eoi,
  apic_timer_handler, timer, exception, interrupt_handler,
}

-- The handler stops the thread of a user exception, and the timer's next interrupt takes it away.
abbrev pub Gone : Machine → Thread → Machine → List Effect → Type 0
Gone m t m' effects =
    (((q : ℕ) → queue m'.cpu.ready_queues q ≡ [])
      × ((x : ℕ) → on_cpu x m'.cpu ≡ on_cpu x m.cpu)
      × (effects ≡ apic_write 0xB0 0 ∷ outb 0x20 0x20 ∷ []))
    ⊎ (((x : ℕ) → on_cpu x m'.cpu + one_if x t ≡ on_cpu x m.cpu)
        × (effects ≡ apic_write 0xB0 0 ∷ map frees (remains t) ++ (outb 0x20 0x20 ∷ [])))

sched_exit-IsValid :
    (cpu : Cpu) (t : Thread) → cpu.sched_thread ≡ some t → IsValid cpu → IsValid (sched_exit cpu)
unfolding sched_exit
sched_exit-IsValid cpu t e v =
    let cur : IsCurrent (some t) = rw e at v.current in
    rw e
      (record { queues = v.queues; asleep = v.asleep; current = (cur.0, λ (d : dead ≡ ready). cc) })

sched_exit_thread :
    (cpu : Cpu) (t : Thread)
    → cpu.sched_thread ≡ some t
    → ((sched_exit cpu).sched_thread ≡ some (record t { state = dead }))
      × ((x : ℕ) → on_cpu x (sched_exit cpu) ≡ on_cpu x cpu)
unfolding sched_exit on_cpu
sched_exit_thread cpu t e = rw e (refl, λ x. refl)

timer_dead :
    (m : Machine) (t : Thread) (rsp : ℕ)
    → IsValid m.cpu
    → m.cpu.sched_thread ≡ some t
    → t.state ≡ dead
    → (rsp' : ℕ) × (m' : Machine) × (effects : List Effect) × (timer m rsp 0x20
        ≡ returns rsp' m' effects)
      × Gone m t m' effects
unfolding timer apic_timer_handler pic_eoi
timer_dead m t rsp v e gone =
    let r = sched_reschedule ((m.ticks + 1) % 2 ^ 64) m.cpu rsp in
    (
      _,
      _,
      _,
      refl,
      elim (sched_reschedule_dead ((m.ticks + 1) % 2 ^ 64) rsp t v e gone) [
        | inl (idle, kept, freed) ↦ inl (idle, kept, rw freed refl)
        | inr (kept, freed) ↦ inr (kept, rw freed refl)
      ],
    )

-- The machine behind `sched_exit`.
unfoldable pub exits : Machine → Machine
exits m = record m { cpu = sched_exit m.cpu }

no_test : (n : ℕ) (b : Bool) → (n ≡ 14 → b ≡ false) → (n == 14 && b) ≡ false
no_test n b untested = elim (Bool-cases (n == 14)) [
  | inl e ↦ let e' : n ≡ 14 = ground arith in rw (e, untested e') refl
  | inr e ↦ rw e refl
]

user_exception-waits :
    (m : Machine) (trap : Trap)
    → trap.int_no < 32
    → trap.int_no ≢ 3
    → trap.int_no ≢ 4
    → (trap.int_no ≡ 14 → m.vmm_test_active ≡ false)
    → trap.cs % 4 ≡ 3
    → interrupt_handler m trap ≡ waits (exits m) (print (user_exception trap.int_no trap.rip) ∷ [])
unfolding interrupt_handler exception exits
user_exception-waits m trap low no₃ no₄ untested user =
    let byte : trap.int_no % 256 ≡ trap.int_no = omega arith in
    let no_timer : (trap.int_no == 0x20) ≡ false = ground arith in
    let no_key : (trap.int_no == 0x21) ≡ false = ground arith in
    let no_diag : (trap.int_no == 3 || trap.int_no == 4) ≡ false = ground arith in
    let is_low : ltb trap.int_no 32 ≡ true = ground arith in
    rw
      (
        byte,
        no_timer,
        no_key,
        no_diag,
        no_test trap.int_no m.vmm_test_active untested,
        is_low,
        user,
      )
      refl

timer_interrupt :
    (m : Machine) (trap : Trap)
    → trap.int_no ≡ 0x20
    → interrupt_handler m trap ≡ timer m trap.rsp 0x20
unfolding interrupt_handler
timer_interrupt m trap e = rw e refl

Gone-exits :
    (m : Machine) (t : Thread) (m' : Machine) (effects : List Effect)
    → m.cpu.sched_thread ≡ some t
    → Gone (exits m) (record t { state = dead }) m' effects
    → Gone m t m' effects
unfolding exits
Gone-exits m t m' effects e gone =
    let same = (sched_exit_thread m.cpu t e).1 in
    elim gone [
      | inl (idle, kept, done) ↦ inl (idle, λ x. kept x ∙ same x, done)
      | inr (kept, done) ↦ inr (λ x. kept x ∙ same x, done)
    ]

-- The timer's interrupt behind `sched_exit`.
pub exits-Gone :
    (m : Machine) (t : Thread) (later : Trap)
    → IsValid m.cpu
    → m.cpu.sched_thread ≡ some t
    → later.int_no ≡ 0x20
    → (rsp : ℕ) × (m'' : Machine) × (effects : List Effect) × (interrupt_handler (exits m) later
        ≡ returns rsp m'' effects)
      × Gone m t m'' effects
unfolding exits
exits-Gone m t later v e tick =
    let (rsp, m'', effects, run, gone) =
      timer_dead (exits m) (record t { state = dead }) later.rsp (sched_exit-IsValid m.cpu t e v)
        (sched_exit_thread m.cpu t e).0 refl in
    (
      rsp,
      m'',
      effects,
      timer_interrupt (exits m) later tick ∙ run,
      Gone-exits m t m'' effects e gone,
    )

-- An exception of a thread in user mode, other than the two debugging ones and the page fault that
-- the test waits for, is printed and never returns to it; and the timer's next interrupt either finds no thread
-- ready and changes none, or takes that thread off the CPU, keeps each other, and frees its stacks
-- and its record (nothing at priority 0): if the CPU's queues are valid and it runs a thread.
pub user_exception-Gone :
    (m : Machine) (t : Thread) (trap later : Trap)
    → IsValid m.cpu
    → m.cpu.sched_thread ≡ some t
    → trap.int_no < 32
    → trap.int_no ≢ 3
    → trap.int_no ≢ 4
    → (trap.int_no ≡ 14 → m.vmm_test_active ≡ false)
    → trap.cs % 4 ≡ 3
    → later.int_no ≡ 0x20
    → (m' : Machine) × (rsp : ℕ) × (m'' : Machine) × (effects : List Effect) × (interrupt_handler m
          trap
        ≡ waits m' (print (user_exception trap.int_no trap.rip) ∷ []))
      × (interrupt_handler m' later ≡ returns rsp m'' effects)
      × Gone m t m'' effects
user_exception-Gone m t trap later v e low no₃ no₄ untested user tick =
    let (rsp, m'', effects, run, gone) = exits-Gone m t later v e tick in
    (exits m, rsp, m'', effects, user_exception-waits m trap low no₃ no₄ untested user, run, gone)
