-- ===== src/Sched/Thread.antt =====
-- The data of src/kernel/sched.c and include/barium/sched.h, and what it does to one queue. The
-- `next` pointers thread each record into one list, so a queue is the list of its threads.
use barium.Prelude.{ℕ, ◌+◌, ◌-◌, ◌*◌, Bool, true, false, Option, List, [], ◌∷◌, ◌++◌, get_or, set}

pub data ThreadState : Type 0 where
  ready running sleeping dead : ThreadState

abbrev pub is_running : ThreadState → Bool
is_running running = true
is_running _ = false

abbrev pub max_priority : ℕ
max_priority = 31

-- `thread_t`; `address` is where the record stands.
pub record Thread : Type 0 where
  pub address : ℕ
  pub tid : ℕ
  pub rsp : ℕ
  pub state : ThreadState
  pub priority : ℕ
  pub name : List ℕ
  pub core_affinity : ℕ
  pub ticks_remaining : ℕ
  pub total_ticks : ℕ
  pub wakeup_tick : ℕ
  pub stack_limit : ℕ
  pub stack_top : ℕ
  pub user_stack_limit : ℕ
  pub user_stack_top : ℕ

-- What the scheduler keeps for a CPU: fields of `cpu_t`, and the entry of `cpu_extras`.
pub record Cpu : Type 0 where
  pub cpu_id : ℕ
  pub sched_thread : Option Thread
  pub ready_queues : List (List Thread)
  pub sleep_queue : List Thread
  pub last_age_tick : ℕ
  pub kernel_stack : ℕ
  pub rsp0 : ℕ

-- `ready_queues[p]`.
abbrev pub queue : List (List Thread) → ℕ → List Thread
queue qs p = get_or qs p []

-- `t->next = ready_queues[t->priority]; ready_queues[t->priority] = t`
unfoldable pub push : List (List Thread) → Thread → List (List Thread)
push qs t = set qs t.priority (t ∷ queue qs t.priority)

-- The walk to the last thread of a queue, and the link behind it.
unfoldable pub push_back : List (List Thread) → Thread → List (List Thread)
push_back qs t = set qs t.priority (queue qs t.priority ++ (t ∷ []))

-- `(MAX_PRIORITY - priority + 1) * 2`, where no priority is above `MAX_PRIORITY`.
abbrev pub time_slice : ℕ → ℕ
time_slice priority = (max_priority + 1 - priority) * 2
