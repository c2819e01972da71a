-- ===== src/Sched/Reschedule.antt =====
-- `sched_reschedule` and `sched_age_threads` of src/kernel/sched.c, and the calls that change the
-- running thread. `tick` is what `apic_get_ticks` returns. The CPU's lock is held with interrupts
-- off from start to end, so a call is one step.
use barium.Prelude.{
  ℕ, zero, suc, ◌+◌, ◌-◌, ◌/◌, ◌%◌, ◌^◌, Bool, true, false, ◌&&◌, ◌||◌, not, Option, none, some,
  List, [], ◌∷◌, ◌==◌, ltb, leb, if◌then◌else◌, set,
}
use barium.Sched.Thread.{
  ThreadState, ready, running, sleeping, dead, is_running, max_priority, Thread, Cpu, queue, push,
  push_back, time_slice,
}

-- The loop over `sleep_queue`: the threads whose time has come join the ready queues. The result
-- is what sleeps on, and the ready queues.
unfoldable pub wake : ℕ → List Thread → List (List Thread) → List Thread × List (List Thread)
wake tick [] qs = ([], qs)
wake tick (t ∷ ts) qs =
    let due = leb t.wakeup_tick tick in
    let (asleep, qs') = wake tick ts (if due then push qs (record t { state = ready }) else qs) in
    (if due then asleep else t ∷ asleep, qs')

-- One thread in the loop of `sched_age_threads`: it stays in the queue, or is to move up.
unfoldable pub age_thread : Thread → Bool × Thread
age_thread t =
    if t.tid == 1
    then (false, t)
    else if ltb 19 (t.total_ticks + 1)
    then (
      true,
      record t {
        total_ticks = 0;
        priority = if ltb t.priority max_priority then t.priority + 1 else t.priority;
      },
    )
    else (false, record t { total_ticks = t.total_ticks + 1 })

-- The walk through one queue: the threads that stay, and those that move, each in order. A thread
-- moves to the queue of its new priority, which is not the queue that is walked.
unfoldable pub age_queue : List Thread → List Thread × List Thread
age_queue [] = ([], [])
age_queue (t ∷ ts) =
    let (moves, t') = age_thread t in
    let (stay, move) = age_queue ts in if moves then (stay, t' ∷ move) else (t' ∷ stay, move)

unfoldable pub push_all : List (List Thread) → List Thread → List (List Thread)
push_all qs [] = qs
push_all qs (t ∷ ts) = push_all (push qs t) ts

unfoldable pub age_level : List (List Thread) → ℕ → List (List Thread)
age_level qs p = let (stay, move) = age_queue (queue qs p) in push_all (set qs p stay) move

-- The loop over the priorities from `p` on, `n` of them.
unfoldable pub age_levels : ℕ → ℕ → List (List Thread) → List (List Thread)
age_levels zero p qs = qs
age_levels (suc n) p qs = age_levels n (p + 1) (age_level qs p)

unfoldable pub sched_age_threads : ℕ → Cpu → Cpu
sched_age_threads tick cpu =
    if ltb ((tick + 2 ^ 64 - cpu.last_age_tick) % 2 ^ 64) 20 then cpu else record cpu {
      last_age_tick = tick;
      ready_queues = age_levels max_priority 0 cpu.ready_queues;
    }

-- The highest priority below `n` with a thread ready.
unfoldable pub top_queue : ℕ → List (List Thread) → Option ℕ
top_queue zero qs = none
top_queue (suc p) qs =
    let lower = top_queue p qs in elim (queue qs p) [ [] ↦ lower | t ∷ ts ↦ some p ]

-- What a call hands back: the CPU, the stack pointer to go on with, and what it passed to `kfree`.
pub record Switch : Type 0 where
  pub cpu : Cpu
  pub rsp : ℕ
  pub freed : List ℕ

-- `p > current->priority || (p == current->priority && current->ticks_remaining == 0) ||
-- current->state != THREAD_RUNNING`
unfoldable pub must_switch : Thread → ℕ → Bool
must_switch current p =
    ltb current.priority p
    || (p == current.priority && current.ticks_remaining == 0 || not (is_running current.state))

-- What becomes of the thread that ran: the queues, the sleepers, and what is freed.
unfoldable pub put_away :
    ThreadState
    → Thread
    → List (List Thread)
    → List Thread
    → List (List Thread) × List Thread × List ℕ
put_away running t qs asleep =
    (push_back qs (record t { state = ready; ticks_remaining = time_slice t.priority }), asleep, [])
put_away sleeping t qs asleep = (qs, t ∷ asleep, [])
put_away dead t qs asleep = (
  qs,
  asleep,
  if t.priority == 0
      then []
      else if t.user_stack_limit == 0
      then t.stack_limit ∷ t.address ∷ []
      else t.user_stack_limit ∷ t.stack_limit ∷ t.address ∷ [],
)
put_away ready t qs asleep = (qs, asleep, [])

-- The switch to the first thread of a queue.
unfoldable pub switch_to : Thread → Cpu → ℕ → Switch
switch_to current cpu p = elim (queue cpu.ready_queues p) [
  | [] ↦ record { cpu = cpu; rsp = current.rsp; freed = [] }
  | next ∷ rest ↦
      let (qs, asleep, freed) =
        put_away current.state current (set cpu.ready_queues p rest) cpu.sleep_queue in
      record {
        cpu = record cpu {
          sched_thread = some (record next { state = running });
          ready_queues = qs;
          sleep_queue = asleep;
          rsp0 = next.stack_top;
          kernel_stack = next.stack_top;
        };
        rsp = next.rsp;
        freed = freed;
      }
]

-- The first half: sleepers wake, the running thread spends a tick, and the ready threads age.
unfoldable pub account : ℕ → ℕ → Thread → Cpu → Cpu
account tick rsp t cpu =
    let (asleep, qs) = wake tick cpu.sleep_queue cpu.ready_queues in
    sched_age_threads tick (record cpu {
      sched_thread = some (record t { rsp = rsp; ticks_remaining = t.ticks_remaining - 1 });
      ready_queues = qs;
      sleep_queue = asleep;
    })

-- The second half: the loop from the highest priority down.
unfoldable pub choose : Thread → Cpu → Switch
choose current cpu = elim (top_queue (max_priority + 1) cpu.ready_queues) [
  | none ↦ record { cpu = cpu; rsp = current.rsp; freed = [] }
  | some p ↦
      if must_switch current p
      then switch_to current cpu p
      else record { cpu = cpu; rsp = current.rsp; freed = [] }
]

unfoldable pub sched_reschedule : ℕ → Cpu → ℕ → Switch
sched_reschedule tick cpu current_rsp = elim cpu.sched_thread [
  | none ↦ record { cpu = cpu; rsp = current_rsp; freed = [] }
  | some t ↦
      choose (record t { rsp = current_rsp; ticks_remaining = t.ticks_remaining - 1 })
        (account tick current_rsp t cpu)
]

-- `sched_exit`, up to the wait for the next interrupt.
unfoldable pub sched_exit : Cpu → Cpu
sched_exit cpu = elim cpu.sched_thread [
  | none ↦ cpu
  | some t ↦ record cpu { sched_thread = some (record t { state = dead }) }
]

-- `sched_sleep`, up to the interrupt that it raises.
unfoldable pub sched_sleep : ℕ → ℕ → Cpu → Cpu
sched_sleep tick ms cpu = elim cpu.sched_thread [
  | none ↦ cpu
  | some t ↦ record cpu {
    sched_thread = some (record t { state = sleeping; wakeup_tick = (tick + ms / 10) % 2 ^ 64 });
  }
]

unfoldable pub sched_get_tid : Cpu → ℕ
sched_get_tid cpu = elim cpu.sched_thread [ none ↦ 0 | some t ↦ t.tid ]
