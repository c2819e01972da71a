-- ===== src/Sched/Threads.antt =====
-- The calls over all CPUs: what they say of threads, and that they keep them.
use barium.Prelude.{
  ℕ, zero, suc, ◌+◌, ◌≤◌, ◌<◌, ◌≡◌, ◌↔◌, refl, true, Option, none, some, List, [], ◌∷◌, ◌++◌, arith,
  ◌==◌, if◌then◌else◌, length, set, get_or, get_or-set_self,
}
use barium.Sched.Thread.{ready, max_priority, Thread, Cpu, queue, push}
use barium.Sched.Count.{count, count_all, count_option, one_if, on_cpu, count_all-push}
use barium.Sched.Invariant.{IsValid, push-IsQueues}
use barium.Sched.System.{
  blank_cpu, has_tid, any_queue, sched_is_alive, Row, rows, ready_rows, running_threads,
  sched_print_tasks, runs_tid, Label,
}

-- How many threads of the system have an id.
unfoldable pub total : ℕ → List Cpu → ℕ
total x [] = 0
total x (c ∷ cs) = on_cpu x c + total x cs

count-has_tid : (x : ℕ) (ts : List Thread) → (has_tid x ts ≡ true) ↔ (0 < count x ts)
unfolding has_tid count
count-has_tid x [] = ground arith
count-has_tid x (t ∷ ts) = ground (arith, count-has_tid x ts)

count_all-any_queue :
    (x : ℕ) (qs : List (List Thread)) → (any_queue x qs ≡ true) ↔ (0 < count_all x qs)
unfolding any_queue count_all
count_all-any_queue x [] = ground arith
count_all-any_queue x (ts ∷ qs) = ground (arith, count-has_tid x ts, count_all-any_queue x qs)

runs_tid_iff : (x : ℕ) (o : Option Thread) → (runs_tid x o ≡ true) ↔ (0 < count_option x o)
unfolding count_option
runs_tid_iff x none = ground arith
runs_tid_iff x (some t) = ground arith

-- `sched_is_alive` answers 1 for exactly the ids that a running, ready or sleeping thread of some
-- CPU has.
pub sched_is_alive_iff : (x : ℕ) (cs : List Cpu) → (sched_is_alive x cs ≡ true) ↔ (0 < total x cs)
unfolding sched_is_alive total on_cpu
sched_is_alive_iff x [] = ground arith
sched_is_alive_iff x (c ∷ cs) = ground (
  arith,
  runs_tid_iff x c.sched_thread,
  count_all-any_queue x c.ready_queues,
  count-has_tid x c.sleep_queue,
  sched_is_alive_iff x cs,
)

-- How many lines of a listing show an id.
unfoldable pub count_rows : ℕ → List Row → ℕ
count_rows x [] = 0
count_rows x (r ∷ rs) = (if r.tid == x then 1 else 0) + count_rows x rs

count_rows-append :
    (x : ℕ) (rs ss : List Row) → count_rows x (rs ++ ss) ≡ count_rows x rs + count_rows x ss
unfolding count_rows
count_rows-append x [] ss = omega arith
count_rows-append x (r ∷ rs) ss = omega (arith, count_rows-append x rs ss)

count_rows-rows :
    (x core : ℕ) (l : Label) (ts : List Thread) → count_rows x (rows core l ts) ≡ count x ts
unfolding count_rows rows count
count_rows-rows x core l [] = refl
count_rows-rows x core l (t ∷ ts) = omega (arith, count_rows-rows x core l ts)

count_rows-ready_rows :
    (x core : ℕ) (qs : List (List Thread)) → count_rows x (ready_rows core qs) ≡ count_all x qs
unfolding count_rows ready_rows count_all
count_rows-ready_rows x core [] = refl
count_rows-ready_rows x core (ts ∷ qs) = omega (
  arith,
  count_rows-append x (rows core Label.is_ready ts) (ready_rows core qs),
  count_rows-rows x core Label.is_ready ts,
  count_rows-ready_rows x core qs,
)

count-running_threads : (x : ℕ) (o : Option Thread) → count x (running_threads o) ≡ count_option x o
unfolding count count_option
count-running_threads x none = refl
count-running_threads x (some t) = omega arith

-- `sched_print_tasks` prints one line for each running, ready and sleeping thread of each CPU.
pub sched_print_tasks-total :
    (x : ℕ) (cs : List Cpu) → count_rows x (sched_print_tasks cs) ≡ total x cs
unfolding sched_print_tasks total on_cpu
sched_print_tasks-total x [] = unfold count_rows in refl
sched_print_tasks-total x (c ∷ cs) =
    let running_rows = rows c.cpu_id Label.is_running (running_threads c.sched_thread) in
    let waiting_rows = ready_rows c.cpu_id c.ready_queues in
    let sleeping_rows = rows c.cpu_id Label.is_sleeping c.sleep_queue in
    let later = sched_print_tasks cs in
    omega (
      arith,
      count_rows-append x running_rows (waiting_rows ++ (sleeping_rows ++ later)),
      count_rows-append x waiting_rows (sleeping_rows ++ later),
      count_rows-append x sleeping_rows later,
      count_rows-rows x c.cpu_id Label.is_running (running_threads c.sched_thread),
      count-running_threads x c.sched_thread,
      count_rows-ready_rows x c.cpu_id c.ready_queues,
      count_rows-rows x c.cpu_id Label.is_sleeping c.sleep_queue,
      sched_print_tasks-total x cs,
    )

-- Replacing a CPU.
pub total-set :
    (x : ℕ) (cs : List Cpu) (i : ℕ) (c : Cpu)
    → i < length cs
    → total x (set cs i c) + on_cpu x (get_or cs i blank_cpu) ≡ total x cs + on_cpu x c
unfolding total
total-set x [] i c h = absurd (omega arith)
total-set x (d ∷ cs) zero c h = omega arith
total-set x (d ∷ cs) (suc i) c h = omega (arith, total-set x cs i c (omega arith))

-- A ready thread joins a CPU at the head of the queue of its priority.
module _ (t : Thread) (c : Cpu) (v : IsValid c) (le : t.priority ≤ max_priority)
    (e : t.state ≡ ready) where
  pub join-IsValid : IsValid (record c { ready_queues = push c.ready_queues t })
  join-IsValid = record {
    queues = push-IsQueues t v.queues e;
    asleep = v.asleep;
    current = v.current;
  }

  pub on_cpu-push :
      (x : ℕ)
      → on_cpu x (record c { ready_queues = push c.ready_queues t }) ≡ on_cpu x c + one_if x t
  unfolding on_cpu
  on_cpu-push x = omega (arith, count_all-push x c.ready_queues t (omega (arith, v.queues.size)))

  pub queue-push : queue (push c.ready_queues t) t.priority ≡ t ∷ queue c.ready_queues t.priority
  unfolding push
  queue-push =
      get_or-set_self c.ready_queues t.priority (t ∷ queue c.ready_queues t.priority) []
        (omega (arith, v.queues.size))
