-- ===== src/Sched/Spawn.antt =====
-- `sched_spawn` and `sched_spawn_user` add one thread, with a fresh id.
use barium.Prelude.{
  ℕ, ◌+◌, ◌-◌, ◌*◌, ◌%◌, ◌^◌, ◌≤◌, ◌<◌, ◌≡◌, refl, true, Option, List, arith, ◌==◌, if◌then◌else◌,
  length, All, All-get_or, All-set, set, get_or, get_or-set_self, ◌∙◌, ap, ◌∷◌, length-set,
}
use native.Mathlib.Nat.{mod-lt}
use barium.Sched.Thread.{ready, max_priority, Thread, queue, push}
use barium.Sched.Invariant.{IsValid}
use barium.Sched.System.{
  System, blank_cpu, sched_is_alive, enlist, sched_spawn, sched_spawn_user, clamp, Spawned,
  initial_frame,
}
use barium.Sched.Threads.{
  total, total-set, join-IsValid, on_cpu-push, queue-push, sched_is_alive_iff,
}

-- The scheduler's state over all CPUs: there are between 1 and 64, each is well formed, and the
-- next thread goes to one of them.
pub record IsSystem (s : System) : Type 0 where
  pub valid : All IsValid s.cpus
  pub next_in : s.next_cpu_index < length s.cpus
  pub few : length s.cpus ≤ 64

-- What a new thread changes: it is counted once, all others as before.
pub record Added (s : System) (r : Spawned) : Type 0 where
  pub system : IsSystem r.system
  pub id : r.tid ≡ s.next_tid
  pub counted :
      (x : ℕ) → total x r.system.cpus ≡ total x s.cpus + (if s.next_tid == x then 1 else 0)
  pub alive : sched_is_alive r.tid r.system.cpus ≡ true
  pub fresh : r.system.next_tid ≡ (s.next_tid + 1) % 2 ^ 64

enlist-Added :
    (t : Thread) (frame : List ℕ) (s : System)
    → IsSystem s
    → t.priority ≤ max_priority
    → t.state ≡ ready
    → Added s (enlist t frame s)
unfolding enlist
enlist-Added t frame s v le e =
    let i = s.next_cpu_index in
    let cpu = get_or s.cpus i blank_cpu in
    let t' = record t { tid = s.next_tid; core_affinity = cpu.cpu_id % 256 } in
    let cpu' = record cpu { ready_queues = push cpu.ready_queues t' } in
    let w = All-get_or IsValid s.cpus i blank_cpu v.next_in v.valid in
    let counted : (x : ℕ)
        → total x (set s.cpus i cpu') ≡ total x s.cpus + (if s.next_tid == x then 1 else 0) =
      λ x. omega (arith, total-set x s.cpus i cpu' v.next_in, on_cpu-push t' cpu w le e x) in
    let size = length-set s.cpus i cpu' in
    let moved = mod-lt ((i + 1) % 2 ^ 32) {m = length s.cpus} (omega (arith, v.next_in)) in
    record {
      system = record {
        valid = All-set IsValid s.cpus i cpu' v.valid (join-IsValid t' cpu w le e);
        next_in = omega (arith, moved, size);
        few = omega (arith, v.few, size);
      };
      id = refl;
      counted = counted;
      alive =
          (sched_is_alive_iff s.next_tid (set s.cpus i cpu')).1
            (ground (arith, counted s.next_tid));
      fresh = refl;
    }

clamp-le : (p : ℕ) → clamp p ≤ max_priority
unfolding clamp
clamp-le p = ground arith

-- The words at the stack pointer of a new thread, read as a `context_t`: 22 words, of which the
-- last five are rip, cs, rflags, rsp and ss.
pub record StartsAt (entry cs sp ss : ℕ) (frame : List ℕ) : Type 0 where
  pub size : length frame ≡ 22
  pub rip : get_or frame 17 0 ≡ entry
  pub code : get_or frame 18 0 ≡ cs
  pub flags : get_or frame 19 0 ≡ 0x202
  pub stack : get_or frame 20 0 ≡ sp
  pub data_segment : get_or frame 21 0 ≡ ss

enlist-StartsAt :
    (t : Thread) (entry cs sp ss : ℕ) (s : System)
    → StartsAt entry cs sp ss (enlist t (initial_frame entry cs sp ss) s).frame
unfolding enlist initial_frame
enlist-StartsAt t entry cs sp ss s = record {
  size = refl;
  rip = refl;
  code = refl;
  flags = refl;
  stack = refl;
  data_segment = refl;
}

-- The thread with the id of a spawn: it heads the queue of the priority `p` on the CPU whose turn it
-- is, its kernel stack ends at `top`, and its stack pointer stands below that by the words of the frame.
pub record Begins (top user_top p : ℕ) (s : System) (r : Spawned) : Type 0 where
  pub thread : Thread
  pub heads :
      queue (get_or r.system.cpus s.next_cpu_index blank_cpu).ready_queues p
      ≡ thread ∷ queue (get_or s.cpus s.next_cpu_index blank_cpu).ready_queues p
  pub id : thread.tid ≡ r.tid
  pub kernel_stack : thread.stack_top ≡ top
  pub user_stack : thread.user_stack_top ≡ user_top
  pub at_frame : thread.rsp ≡ (top + 2 ^ 64 - 8 * length r.frame) % 2 ^ 64

enlist-Begins :
    (t : Thread) (entry cs sp ss : ℕ) (s : System)
    → IsSystem s
    → t.priority ≤ max_priority
    → t.state ≡ ready
    → t.rsp ≡ (t.stack_top + 2 ^ 64 - 176) % 2 ^ 64
    → Begins t.stack_top t.user_stack_top t.priority s (enlist t (initial_frame entry cs sp ss) s)
unfolding enlist initial_frame
enlist-Begins t entry cs sp ss s v le e below =
    let i = s.next_cpu_index in
    let cpu = get_or s.cpus i blank_cpu in
    let t' = record t { tid = s.next_tid; core_affinity = cpu.cpu_id % 256 } in
    let cpu' = record cpu { ready_queues = push cpu.ready_queues t' } in
    let w = All-get_or IsValid s.cpus i blank_cpu v.next_in v.valid in
    let here : get_or (set s.cpus i cpu') i blank_cpu ≡ cpu' =
      get_or-set_self s.cpus i cpu' blank_cpu v.next_in in
    record {
      thread = t';
      heads = ap (λ c. queue c.ready_queues t.priority) here ∙ queue-push t' cpu w le e;
      id = refl;
      kernel_stack = refl;
      user_stack = refl;
      at_frame = below;
    }

-- From a well-formed state, `sched_spawn` returns a new id, the next one in turn; the thread with
-- it is alive, every other thread is kept, the state stays well formed whatever priority is asked for, it heads a ready
-- queue, and at its stack pointer, up to the end of its stack, lie the words that start it at `entry` in
-- ring 0.
sched_spawn-Added :
    (entry priority : ℕ) (name : Option (List ℕ)) (thread stack : ℕ) {s : System}
    → IsSystem s
    → let r = sched_spawn entry priority name thread stack s in
      let top = (stack + 8192) % 2 ^ 64 in
      Added s r × Begins top 0 (clamp priority) s r × StartsAt entry 0x08 top 0x10 r.frame
unfolding sched_spawn
sched_spawn-Added entry priority name thread stack {s} v = (
  enlist-Added _ _ s v (clamp-le priority) refl,
  enlist-Begins _ _ _ _ _ s v (clamp-le priority) refl refl,
  enlist-StartsAt _ _ _ _ _ s,
)

-- From a well-formed state, `sched_spawn_user` returns a new id, the next one in turn; the thread
-- with it is alive, every other thread is kept, the state stays well formed whatever priority is
-- asked for; the thread heads the queue of that priority, at most 31, on the CPU whose turn it is; and at
-- its stack pointer, up to the end of its kernel stack, lie the words from which an interrupt return
-- starts `entry` in ring 3 on its user stack.
pub sched_spawn_user-Added :
    (entry priority : ℕ) (name : Option (List ℕ)) (thread kstack ustack : ℕ) {s : System}
    → IsSystem s
    → let r = sched_spawn_user entry priority name thread kstack ustack s in
      let user_top = (ustack + 8192) % 2 ^ 64 in
      Added s r
      × Begins ((kstack + 8192) % 2 ^ 64) user_top (clamp priority) s r
      × StartsAt entry 0x23 user_top 0x1b r.frame
unfolding sched_spawn_user
sched_spawn_user-Added entry priority name thread kstack ustack {s} v = (
  enlist-Added _ _ s v (clamp-le priority) refl,
  enlist-Begins _ _ _ _ _ s v (clamp-le priority) refl refl,
  enlist-StartsAt _ _ _ _ _ s,
)
