-- ===== src/Kernel/Shell.antt =====
-- The shell gets the first CPU at the first tick of the timer.
use barium.Prelude.{
  ℕ, ◌+◌, ◌-◌, ◌*◌, ◌%◌, ◌^◌, ◌≡◌, refl, true, false, some, List, [], ◌∷◌, get_or, set, replicate,
  ◌==◌, ltb, Bool-cases, inl, inr,
}
use barium.Sched.Thread.{Thread, Cpu, running, push, time_slice}
use barium.Sched.Reschedule.{
  sched_reschedule, Switch, choose, top_queue, account, sched_age_threads, wake, must_switch,
  switch_to, put_away, push_all, age_levels, age_level, age_queue, age_thread,
}
use barium.Sched.System.{
  blank_cpu, sched_init, sched_spawn, enlist, initial_frame, clamp, clear_extra, blank_thread,
  idle_name,
}
use barium.Sched.Spawn.{StartsAt}
use barium.Kernel.{start_shell, shell_name}

-- The thread that runs on a CPU has the id, and the CPU goes on at its stack pointer.
pub record Runs (tid rsp : ℕ) (r : Switch) : Type 0 where
  pub thread : Thread
  pub on_cpu : r.cpu.sched_thread ≡ some thread
  pub id : thread.tid ≡ tid
  pub state : thread.state ≡ running
  pub goes_on : r.rsp ≡ rsp

-- The ready queues with one thread, at priority 10.
abbrev with_one : Thread → List (List Thread)
with_one t = set (replicate 32 []) 10 (t ∷ [])

abbrev idle_of : Thread → Thread
idle_of t = record t { priority = 0; state = running }

choose-Runs :
    (idle t : Thread) (cpu : Cpu)
    → Runs t.tid t.rsp (choose (idle_of idle) (record cpu { ready_queues = with_one t }))
unfolding choose must_switch switch_to top_queue put_away
choose-Runs idle t cpu = record {
  thread = record t { state = running };
  on_cpu = refl;
  id = refl;
  state = refl;
  goes_on = refl;
}

abbrev young : Thread → Thread
young t = record t { priority = 10; total_ticks = 0 }

ages_first :
    (t : Thread) → (t.tid == 1) ≡ true → age_levels 31 0 (with_one (young t)) ≡ with_one (young t)
unfolding age_levels age_level age_queue age_thread push_all
ages_first t e = rw e refl

ages_other :
    (t : Thread)
    → (t.tid == 1) ≡ false
    → age_levels 31 0 (with_one (young t)) ≡ with_one (record t { priority = 10; total_ticks = 1 })
unfolding age_levels age_level age_queue age_thread push_all
ages_other t e = rw e refl

choose_aged :
    (idle t : Thread) (cpu : Cpu)
    → Runs t.tid t.rsp
        (choose (idle_of idle) (record cpu { ready_queues = age_levels 31 0 (with_one (young t)) }))
choose_aged idle t cpu = elim (Bool-cases (t.tid == 1)) [
  | inl e ↦ rw (ages_first t e) (choose-Runs idle (young t) cpu)
  | inr e ↦ rw (ages_other t e) (choose-Runs idle (record t { priority = 10; total_ticks = 1 }) cpu)
]

reschedule-Runs :
    (tick rsp : ℕ) (idle t : Thread) (c : Cpu)
    → Runs t.tid t.rsp (
        sched_reschedule tick
          (record c {
            sched_thread = some (idle_of idle);
            ready_queues = with_one (young t);
            sleep_queue = [];
          })
          rsp)
unfolding sched_reschedule account wake sched_age_threads
reschedule-Runs tick rsp idle t c =
    let ran = record idle { rsp = rsp; ticks_remaining = idle.ticks_remaining - 1 } in
    let on = record c { sched_thread = some (idle_of ran); sleep_queue = [] } in
    elim (Bool-cases (ltb ((tick + 2 ^ 64 - c.last_age_tick) % 2 ^ 64) 20)) [
      | inl soon ↦ rw soon (choose-Runs ran (young t) on)
      | inr due ↦ rw due (choose_aged ran t (record on { last_age_tick = tick }))
    ]

starts_at : (entry cs sp ss : ℕ) → StartsAt entry cs sp ss (initial_frame entry cs sp ss)
unfolding initial_frame
starts_at entry cs sp ss = record {
  size = refl;
  rip = refl;
  code = refl;
  flags = refl;
  stack = refl;
  data_segment = refl;
}

-- After kmain starts the scheduler and spawns the shell, on at least one CPU and with no thread given
-- to a CPU before, the first call of the scheduler on the first CPU switches to the shell, at whatever
-- tick it comes and whatever the CPUs held: the thread that then runs has the id that the spawn
-- returned, and the CPU goes on at the top of the shell's stack less 22 words, where the words lie that
-- start `shell_run` in ring 0 on that stack.
pub start_shell-Runs :
    (idle_thread idle_stack shell_run thread stack tick rsp tid : ℕ) (c : Cpu) (others : List Cpu)
    → let r =
        start_shell idle_thread idle_stack shell_run thread stack
          (record { cpus = c ∷ others; next_tid = tid; next_cpu_index = 0 }) in
      let top = (stack + 8192) % 2 ^ 64 in
      Runs r.tid
        ((top + 2 ^ 64 - 22 * 8) % 2 ^ 64)
        (sched_reschedule tick (get_or r.system.cpus 0 blank_cpu) rsp)
      × StartsAt shell_run 0x08 top 0x10 r.frame
unfolding start_shell sched_init sched_spawn enlist clamp initial_frame push
start_shell-Runs idle_thread idle_stack shell_run thread stack tick rsp tid c others =
    let idle : Thread = record (blank_thread idle_thread) {
      tid = tid;
      name = idle_name;
      stack_limit = idle_stack;
      stack_top = (idle_stack + 8192) % 2 ^ 64;
    } in
    let top = (stack + 8192) % 2 ^ 64 in
    let shell : Thread = record (blank_thread thread) {
      tid = (tid + 1) % 2 ^ 64;
      rsp = (top + 2 ^ 64 - 22 * 8) % 2 ^ 64;
      priority = 10;
      name = shell_name;
      core_affinity = c.cpu_id % 256;
      ticks_remaining = time_slice 10;
      stack_limit = stack;
      stack_top = top;
    } in
    elim (Bool-cases (tid == 1)) [
      | inl e ↦ (rw e (reschedule-Runs tick rsp idle shell (clear_extra c)), starts_at _ _ _ _)
      | inr e ↦ (rw e (reschedule-Runs tick rsp idle shell c), starts_at _ _ _ _)
    ]
