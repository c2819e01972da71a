-- ===== src/Idt/Tests.antt =====
-- Interrupts of a small machine.
use barium.Prelude.{ℕ, ◌*◌, ◌≡◌, refl, true, some, List, [], ◌∷◌, arith, set, replicate}
use barium.Sched.Thread.{ready, running, Thread, Cpu}
use barium.Sched.System.{blank_thread, blank_cpu}
use barium.Sched.Invariant.{IsValid, set-IsQueues, replicate-IsQueues}
use barium.Keyboard.{blank}
use barium.Vmm.{Vmm, vmm_map}
use barium.Vmm.Samples
use barium.Idt.Handler.{
  Machine, Trap, Effect, print, user_exception, returns, waits, interrupt_handler,
}
use barium.Idt.Events.{Gone, user_exception-Gone}

abbrev user : Thread
user = record (blank_thread 0x2000) {
  tid = 2;
  state = running;
  priority = 10;
  stack_limit = 0x8000;
  user_stack_limit = 0xA000;
}

abbrev cpu : Cpu
cpu = record blank_cpu {
  sched_thread = some user;
  ready_queues = set (replicate 32 []) 0 (blank_thread 0x1000 ∷ []);
}

cpu-IsValid : IsValid cpu
cpu-IsValid = record {
  queues = set-IsQueues 0 (blank_thread 0x1000 ∷ []) replicate-IsQueues ((refl, refl), tt);
  asleep = tt;
  current = (omega arith, λ (e : running ≡ ready). cc);
}

abbrev machine : Machine
machine = record {
  ticks = 7;
  cpu = cpu;
  keyboard = blank;
  vmm = Samples.blank;
  pml4 = 0x1000;
  vmm_test_active = true;
}

abbrev trap : ℕ → Trap
trap n = record {
  int_no = n;
  err_code = 0;
  rip = 0x40_0000;
  cs = 0x23;
  rsp = 0x8F00;
  scancode = 0;
  cr2 = 0xCAF_EBAB_E008;
}

-- A division by zero, then the timer.
user_exception-Gone_example :
    (m' : Machine) × (rsp : ℕ) × (m'' : Machine) × (effects : List Effect) × (interrupt_handler
        machine
        (trap 0)
      ≡ waits m' (print (user_exception 0 0x40_0000) ∷ []))
    × (interrupt_handler m' (trap 0x20) ≡ returns rsp m'' effects)
    × Gone machine user m'' effects
user_exception-Gone_example =
    user_exception-Gone machine user (trap 0) (trap 0x20) cpu-IsValid refl (omega arith)
      (omega arith) (omega arith) (λ (e : 0 ≡ 14). absurd (omega arith)) refl refl

-- The tables with a page that is read only at 0xCAFEBABE000, as in the test.
abbrev read_only : Vmm
read_only = vmm_map Samples.blank (1 * 4096) 0xCAF_EBAB_E000 0x5000 1
