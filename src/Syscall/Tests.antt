-- ===== src/Syscall/Tests.antt =====
-- The exit of a thread on a small machine.
use barium.Prelude.{
  ℕ, ◌≡◌, ◌≢◌, refl, false, some, List, [], ◌∷◌, set, replicate, arith, ◌==◌, if◌then◌else◌,
}
use barium.Sched.Thread.{ready, running, Thread, Cpu}
use barium.Sched.System.{blank_thread, blank_cpu}
use barium.Sched.Invariant.{IsValid, set-IsQueues, replicate-IsQueues}
use barium.Keyboard.{blank}
use barium.Idt.Handler.{Machine, Trap, Effect, Handled, interrupt_handler}
use barium.Idt.Events.{Gone}
use barium.Syscall.{Read, text, faults, waits, syscall_handler}
use barium.Syscall.Exit.{Kept, syscall_handler-Gone}

abbrev caller : Thread
caller = record (blank_thread 0x2000) {
  tid = 2;
  state = running;
  priority = 10;
  stack_limit = 0x8000;
  user_stack_limit = 0xA000;
}

abbrev cpu : Cpu
cpu = record blank_cpu {
  sched_thread = some caller;
  ready_queues = set (replicate 32 []) 0 (blank_thread 0x1000 ∷ []);
}

cpu-IsValid : IsValid cpu
cpu-IsValid = record {
  queues = set-IsQueues 0 (blank_thread 0x1000 ∷ []) replicate-IsQueues ((refl, refl), tt);
  asleep = tt;
  current = (omega arith, λ (e : running ≡ ready). cc);
}

abbrev machine : Machine
machine = record {
  ticks = 7;
  cpu = cpu;
  keyboard = blank;
  vmm = record {
    words = λ a. 0;
    pmm = record {
      bitmap = λ i. 0;
      total_pages = 8;
      usable_pages = 8;
      free_pages = 8;
      last_search_index = 0;
      highest_phys_address = 0x8000;
    };
  };
  pml4 = 0x1000;
  vmm_test_active = false;
}

abbrev tick : Trap
tick = record { int_no = 0x20; err_code = 0; rip = 0; cs = 8; rsp = 0x8F00; scancode = 0; cr2 = 0 }

-- A string at one address, and no page at any other.
abbrev read : ℕ → Read
read a = if a == 0x40_0000 then text (104 ∷ 105 ∷ []) else faults [] 14

syscall_handler-Gone_example :
    ((m' : Machine) × (rsp : ℕ) × (m'' : Machine) × (effects : List Effect) × (syscall_handler read
          machine 2 0
        ≡ waits m')
      × (interrupt_handler m' tick ≡ Handled.returns rsp m'' effects)
      × Gone machine caller m'' effects)
    × ((no : ℕ) → no ≢ 2 → Kept read machine no 0 (syscall_handler read machine no 0))
syscall_handler-Gone_example = syscall_handler-Gone read machine caller tick 0 cpu-IsValid refl refl
