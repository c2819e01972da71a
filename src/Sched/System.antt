-- ===== src/Sched/System.antt =====
-- The calls of src/kernel/sched.c that reach over all CPUs: the start of a CPU's scheduler, new
-- threads, the hand-over of a thread, and the questions about threads. What `kmalloc` returns is an
-- argument. Each loop iteration over a CPU holds its lock; a call is taken as one step.
use barium.Prelude.{
  ℕ, zero, suc, ◌+◌, ◌-◌, ◌*◌, ◌%◌, ◌^◌, Bool, true, false, ◌||◌, Option, none, some, List, [], ◌∷◌,
  ◌++◌, map, ◌==◌, ltb, if◌then◌else◌, set, get_or, length, replicate,
}
use barium.Sched.Thread.{ready, running, max_priority, Thread, Cpu, queue, push, time_slice}

-- The table of CPUs (`cpus` of src/kernel/cpu.c with `cpu_extras`), `next_tid`, `next_cpu_index`.
pub record System : Type 0 where
  pub cpus : List Cpu
  pub next_tid : ℕ
  pub next_cpu_index : ℕ

-- `thread_t` after `b_memset(..., 0, ...)`, at an address.
abbrev pub blank_thread : ℕ → Thread
blank_thread a = record {
  address = a;
  tid = 0;
  rsp = 0;
  state = ready;
  priority = 0;
  name = [];
  core_affinity = 0;
  ticks_remaining = 0;
  total_ticks = 0;
  wakeup_tick = 0;
  stack_limit = 0;
  stack_top = 0;
  user_stack_limit = 0;
  user_stack_top = 0;
}

abbrev pub blank_cpu : Cpu
blank_cpu = record {
  cpu_id = 0;
  sched_thread = none;
  ready_queues = replicate 32 [];
  sleep_queue = [];
  last_age_tick = 0;
  kernel_stack = 0;
  rsp0 = 0;
}

abbrev pub idle_name : List ℕ
idle_name = 105 ∷ 100 ∷ 108 ∷ 101 ∷ []

abbrev pub clear_extra : Cpu → Cpu
clear_extra cpu = record cpu { sleep_queue = []; last_age_tick = 0 }

-- `sched_init` on the CPU at index `this`.
unfoldable pub sched_init : ℕ → (thread stack : ℕ) → System → System
sched_init this thread stack s =
    let cpus = if s.next_tid == 1 then map clear_extra s.cpus else s.cpus in
    let cpu = get_or cpus this blank_cpu in
    let idle = record (blank_thread thread) {
      tid = s.next_tid;
      state = running;
      name = idle_name;
      stack_limit = stack;
      stack_top = (stack + 8192) % 2 ^ 64;
    } in
    record s {
      cpus = set cpus this (record cpu {
        sched_thread = some idle;
        ready_queues = replicate 32 [];
        sleep_queue = [];
      });
      next_tid = (s.next_tid + 1) % 2 ^ 64;
    }

-- The words that `sched_spawn` and `sched_spawn_user` push, from the lowest address up: the zeroed
-- registers, the interrupt number and error code, then what `iretq` takes.
unfoldable pub initial_frame : (entry cs sp ss : ℕ) → List ℕ
initial_frame entry cs sp ss = replicate 15 0 ++ (0 ∷ 0 ∷ entry ∷ cs ∷ 0x202 ∷ sp ∷ ss ∷ [])

-- What a call that makes a thread does: the new state, the id it returns, and the words it leaves
-- at the thread's `rsp`.
pub record Spawned : Type 0 where
  pub system : System
  pub tid : ℕ
  pub frame : List ℕ

unfoldable pub clamp : ℕ → ℕ
clamp priority = if ltb max_priority priority then max_priority else priority

abbrev pub name_or_blank : Option (List ℕ) → List ℕ
name_or_blank none = []
name_or_blank (some n) = n

-- The common end of both: the thread gets its id and CPU, and heads the queue of its priority.
unfoldable pub enlist : Thread → List ℕ → System → Spawned
enlist t frame s =
    let i = s.next_cpu_index in
    let cpu = get_or s.cpus i blank_cpu in
    let t' = record t { tid = s.next_tid; core_affinity = cpu.cpu_id % 256 } in
    record {
      system = record {
        cpus = set s.cpus i (record cpu { ready_queues = push cpu.ready_queues t' });
        next_tid = (s.next_tid + 1) % 2 ^ 64;
        next_cpu_index = (i + 1) % 2 ^ 32 % length s.cpus;
      };
      tid = s.next_tid;
      frame = frame;
    }

unfoldable pub sched_spawn :
    (entry priority : ℕ) → Option (List ℕ) → (thread stack : ℕ) → System → Spawned
sched_spawn entry priority name thread stack =
    let p = clamp priority in
    let top = (stack + 8192) % 2 ^ 64 in
    enlist
      (record (blank_thread thread) {
        rsp = (top + 2 ^ 64 - 22 * 8) % 2 ^ 64;
        priority = p;
        name = name_or_blank name;
        ticks_remaining = time_slice p;
        stack_limit = stack;
        stack_top = top;
      })
      (initial_frame entry 0x08 top 0x10)

unfoldable pub sched_spawn_user :
    (entry priority : ℕ) → Option (List ℕ) → (thread kstack ustack : ℕ) → System → Spawned
sched_spawn_user entry priority name thread kstack ustack =
    let p = clamp priority in
    let top = (kstack + 8192) % 2 ^ 64 in
    let user_top = (ustack + 8192) % 2 ^ 64 in
    enlist
      (record (blank_thread thread) {
        rsp = (top + 2 ^ 64 - 22 * 8) % 2 ^ 64;
        priority = p;
        name = name_or_blank name;
        ticks_remaining = time_slice p;
        stack_limit = kstack;
        stack_top = top;
        user_stack_limit = ustack;
        user_stack_top = user_top;
      })
      (initial_frame entry 0x23 user_top 0x1b)

unfoldable pub has_tid : ℕ → List Thread → Bool
has_tid tid [] = false
has_tid tid (t ∷ ts) = t.tid == tid || has_tid tid ts

unfoldable pub any_queue : ℕ → List (List Thread) → Bool
any_queue tid [] = false
any_queue tid (ts ∷ qs) = has_tid tid ts || any_queue tid qs

abbrev pub runs_tid : ℕ → Option Thread → Bool
runs_tid tid none = false
runs_tid tid (some t) = t.tid == tid

-- The loop of `sched_is_alive` over the CPUs.
unfoldable pub sched_is_alive : ℕ → List Cpu → Bool
sched_is_alive tid [] = false
sched_is_alive tid (c ∷ cs) =
    runs_tid tid c.sched_thread
    || (any_queue tid c.ready_queues || (has_tid tid c.sleep_queue || sched_is_alive tid cs))

-- The first thread with an id, and the queue without it.
unfoldable pub unlink : ℕ → List Thread → Option (Thread × List Thread)
unlink tid [] = none
unlink tid (t ∷ ts) =
    let rest = unlink tid ts in
    if t.tid == tid
    then some (t, ts)
    else elim rest [ none ↦ none | some (u, us) ↦ some (u, t ∷ us) ]

-- The loop over the priorities below `n`, the highest first.
unfoldable pub unlink_queues : ℕ → ℕ → List (List Thread) → Option (Thread × List (List Thread))
unlink_queues tid zero qs = none
unlink_queues tid (suc p) qs =
    let lower = unlink_queues tid p qs in
    elim (unlink tid (queue qs p)) [ none ↦ lower | some (t, ts) ↦ some (t, set qs p ts) ]

-- The loop over the CPUs.
unfoldable pub unlink_cpus : ℕ → List Cpu → Option (Thread × List Cpu)
unlink_cpus tid [] = none
unlink_cpus tid (c ∷ cs) =
    let later = unlink_cpus tid cs in
    elim (unlink_queues tid (max_priority + 1) c.ready_queues) [
      | some (t, qs) ↦ some (t, record c { ready_queues = qs } ∷ cs)
      | none ↦ elim later [ none ↦ none | some (t, cs') ↦ some (t, c ∷ cs') ]
    ]

-- `sched_handoff` on the CPU at index `this`, and whether it ends in `sched_yield`.
unfoldable pub sched_handoff : ℕ → ℕ → System → System × Bool
sched_handoff this tid s = if tid == 0 then (s, false) else elim (unlink_cpus tid s.cpus) [
  | none ↦ (s, false)
  | some (t, cs) ↦
      let cpu = get_or cs this blank_cpu in
      let t' = record t { priority = max_priority; core_affinity = cpu.cpu_id % 256 } in
      (
        record s { cpus = set cs this (record cpu { ready_queues = push cpu.ready_queues t' }) },
        true,
      )
]

-- A line of `sched_print_tasks`.
pub data Label : Type 0 where
  is_running is_ready is_sleeping : Label

pub record Row : Type 0 where
  pub tid : ℕ
  pub priority : ℕ
  pub core : ℕ
  pub label : Label
  pub name : List ℕ

unfoldable pub rows : ℕ → Label → List Thread → List Row
rows core l [] = []
rows core l (t ∷ ts) =
    record { tid = t.tid; priority = t.priority; core = core; label = l; name = t.name }
    ∷ rows core l ts

unfoldable pub ready_rows : ℕ → List (List Thread) → List Row
ready_rows core [] = []
ready_rows core (ts ∷ qs) = rows core is_ready ts ++ ready_rows core qs

abbrev pub running_threads : Option Thread → List Thread
running_threads none = []
running_threads (some t) = t ∷ []

-- The lines of `sched_print_tasks` below its heading.
unfoldable pub sched_print_tasks : List Cpu → List Row
sched_print_tasks [] = []
sched_print_tasks (c ∷ cs) =
    rows c.cpu_id is_running (running_threads c.sched_thread)
    ++ (ready_rows c.cpu_id c.ready_queues
        ++ (rows c.cpu_id is_sleeping c.sleep_queue ++ sched_print_tasks cs))
