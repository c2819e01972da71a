-- ===== src/Sched/Tests.antt =====
-- The scheduler at a concrete state of two CPUs, and its theorems there.
use barium.Prelude.{
  ℕ, ◌+◌, ◌<◌, ◌≤◌, ◌≡◌, ◌↔◌, refl, ◌⊎◌, true, none, some, List, [], ◌∷◌, arith, set, replicate,
  All,
}
use barium.Sched.Thread.{
  max_priority, ready, running, sleeping, dead, Thread, Cpu, queue, push, push_back,
}
use barium.Sched.Reschedule.{
  sched_reschedule, sched_exit, choose, top_queue, account, sched_age_threads, wake, must_switch,
  switch_to, put_away, age_levels, age_level, age_queue, age_thread, push_all,
}
use barium.Sched.Count.{one_if, on_cpu}
use barium.Sched.Invariant.{IsValid, set-IsQueues, replicate-IsQueues, queue-replicate}
use barium.Sched.Contract.{
  sched_reschedule-IsValid, sched_reschedule-conserves, sched_reschedule_urgent,
  sched_reschedule_dead,
}
use barium.Sched.System.{
  System, blank_thread, blank_cpu, sched_spawn_user, clamp, sched_handoff, sched_is_alive,
}
use barium.Sched.Rank.{IsRanked, InQueues, InQueues-set, passes}
use barium.Sched.Waiting.{Waits}
use barium.Sched.Events.{
  Event, interrupt, exits, joins, step, passes_of, IsOther, OthersRun, run_events, count_passes,
  run_events_top,
}
use barium.Sched.Threads.{total, sched_is_alive_iff}
use barium.Sched.Handoff.{HandedOff, sched_handoff-HandedOff}
use barium.Sched.Spawn.{IsSystem, Added, Begins, StartsAt, sched_spawn_user-Added}

abbrev idle : Thread
idle = record (blank_thread 0x1000) { tid = 1 }

abbrev shell : Thread
shell = record (blank_thread 0x2000) {
  tid = 2;
  state = running;
  priority = 10;
  ticks_remaining = 1;
  stack_limit = 0x8000;
}

abbrev worker : Thread
worker = record (blank_thread 0x3000) { tid = 3; priority = 10; ticks_remaining = 44; rsp = 77 }

abbrev sleeper : Thread
sleeper = record (blank_thread 0x4000) {
  tid = 4;
  state = sleeping;
  priority = 5;
  wakeup_tick = 100;
}

abbrev ready_now : List (List Thread)
ready_now = set (set (replicate 32 []) 0 (idle ∷ [])) 10 (worker ∷ [])

abbrev busy : Cpu
busy = record blank_cpu {
  sched_thread = some shell;
  ready_queues = ready_now;
  sleep_queue = sleeper ∷ [];
}

busy-IsValid : IsValid busy
busy-IsValid = record {
  queues =
      set-IsQueues 10 (worker ∷ [])
        (set-IsQueues 0 (idle ∷ []) replicate-IsQueues ((refl, refl), tt)) ((refl, refl), tt);
  asleep = ((omega arith, refl), tt);
  current = (omega arith, λ (e : running ≡ ready). cc);
}

-- The slice of `shell` ends: `worker` runs, and `shell` stands last in its queue with a new slice.
round_robin :
    (sched_reschedule 19 busy 55).cpu.ready_queues
    ≡ set ready_now 10 (record shell { rsp = 55; state = ready; ticks_remaining = 44 } ∷ [])
unfolding sched_reschedule choose top_queue account sched_age_threads wake must_switch switch_to
    put_away push_back
round_robin = refl

sched_reschedule-IsValid_example : IsValid (sched_reschedule 19 busy 55).cpu
sched_reschedule-IsValid_example = sched_reschedule-IsValid 19 55 busy-IsValid

sched_reschedule-conserves_example :
    let r = sched_reschedule 100 busy 55 in
    ((x : ℕ) → on_cpu x r.cpu ≡ on_cpu x busy) × (r.freed ≡ [])
sched_reschedule-conserves_example =
    sched_reschedule-conserves 100 55 busy-IsValid (λ (e : running ≡ dead). cc)

sched_reschedule_urgent_example : queue (sched_reschedule 100 busy 55).cpu.ready_queues 20 ≡ []
unfolding sched_reschedule choose top_queue account sched_age_threads wake must_switch switch_to
    put_away push_back push age_levels age_level age_queue age_thread push_all
sched_reschedule_urgent_example =
    sched_reschedule_urgent 100 55 shell busy-IsValid refl 20 (omega arith)

-- The same CPU after `sched_exit`.
abbrev leaving : Cpu
leaving = sched_exit busy

leaving-IsValid : IsValid leaving
unfolding sched_exit
leaving-IsValid = record {
  queues = busy-IsValid.queues;
  asleep = busy-IsValid.asleep;
  current = (omega arith, λ (e : dead ≡ ready). cc);
}

sched_reschedule_dead_example :
    let r = sched_reschedule 19 leaving 55 in
    let gone = record shell { state = dead } in
    (((q : ℕ) → queue r.cpu.ready_queues q ≡ [])
      × ((x : ℕ) → on_cpu x r.cpu ≡ on_cpu x leaving)
      × (r.freed ≡ []))
    ⊎ (((x : ℕ) → on_cpu x r.cpu + one_if x gone ≡ on_cpu x leaving)
        × (r.freed ≡ 0x8000 ∷ 0x2000 ∷ []))
unfolding sched_exit
sched_reschedule_dead_example =
    sched_reschedule_dead 19 55 (record shell { state = dead }) leaving-IsValid refl refl

abbrev two_cpus : System
two_cpus = record {
  cpus = busy ∷ record blank_cpu { cpu_id = 1 } ∷ [];
  next_tid = 5;
  next_cpu_index = 1;
}

two_cpus-IsSystem : IsSystem two_cpus
two_cpus-IsSystem = record {
  valid = (busy-IsValid, (record { queues = replicate-IsQueues; asleep = tt; current = tt }, tt));
  next_in = omega arith;
  few = omega arith;
}

sched_spawn_user-Added_example :
    let r = sched_spawn_user 0x10_0000 10 none 0x5000 0x6000 0xa000 two_cpus in
    Added two_cpus r
    × Begins 0x8000 0xc000 10 two_cpus r
    × StartsAt 0x10_0000 0x23 0xc000 0x1b r.frame
unfolding clamp
sched_spawn_user-Added_example =
    sched_spawn_user-Added 0x10_0000 10 none 0x5000 0x6000 0xa000 two_cpus-IsSystem

sched_handoff-HandedOff_example :
    let r = sched_handoff 1 3 two_cpus in
    All IsValid r.0.cpus
    × ((x : ℕ) → total x r.0.cpus ≡ total x two_cpus.cpus)
    × HandedOff 1 3 two_cpus r
sched_handoff-HandedOff_example =
    sched_handoff-HandedOff 1 3 two_cpus-IsSystem.valid (omega arith) (omega arith)

sched_is_alive_iff_example : (sched_is_alive 4 two_cpus.cpus ≡ true) ↔ (0 < total 4 two_cpus.cpus)
sched_is_alive_iff_example = sched_is_alive_iff 4 two_cpus.cpus

-- A worker one pass away from the top, behind a shell at the top.
abbrev patient : Thread
patient = record worker { priority = 30; total_ticks = 19 }

abbrev crowded : Cpu
crowded = record blank_cpu {
  sched_thread = some (record shell { priority = 31; ticks_remaining = 2 });
  ready_queues = set (replicate 32 []) 30 (patient ∷ []);
}

crowded-IsValid : IsValid crowded
crowded-IsValid = record {
  queues = set-IsQueues 30 (patient ∷ []) replicate-IsQueues ((refl, refl), tt);
  asleep = tt;
  current = (omega arith, λ (e : running ≡ ready). cc);
}

blank-Ranked : (q : ℕ) → All (IsRanked 3 619) (queue (replicate 32 []) q)
blank-Ranked q = rw (queue-replicate 32 q) tt

crowded-Waits : Waits 3 619 crowded
crowded-Waits = record {
  ranked =
      InQueues-set (IsRanked 3 619) (replicate 32 []) 30 (patient ∷ []) blank-Ranked
        (λ e. (omega arith, λ lt. omega arith), tt);
  awake = tt;
}

-- The shell's turn ends in an exit, and a new thread joins, before and after an interrupt.
abbrev newcomer : Thread
newcomer = record (blank_thread 0x5000) { tid = 5; priority = 7 }

abbrev events : List Event
events = joins newcomer ∷ interrupt 20 55 ∷ exits ∷ []

crowded_run : OthersRun 3 events crowded
unfolding OthersRun IsOther step
crowded_run = (
  (omega arith, omega arith, refl),
  ((record shell { priority = 31; ticks_remaining = 2 }, refl, omega arith), (tt, tt)),
)

crowded_passes : 620 ≤ 619 + count_passes events crowded
unfolding count_passes passes_of passes step
crowded_passes = omega arith

run_events_top_example :
    let cpu' = run_events events crowded in
    (on_cpu 3 cpu' ≡ on_cpu 3 crowded)
    × InQueues (λ t. t.tid ≡ 3 → t.priority ≡ max_priority) cpu'.ready_queues
run_events_top_example =
    run_events_top events 3 619 crowded (omega arith) crowded-IsValid crowded-Waits crowded_run
      crowded_passes
