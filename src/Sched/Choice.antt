-- ===== src/Sched/Choice.antt =====
-- The loop of `sched_reschedule` from the highest priority down, and what stands before it.
use barium.Prelude.{
  ℕ, zero, suc, ◌+◌, ◌-◌, ◌≤◌, ◌<◌, ◌≡◌, refl, ◌⊎◌, true, false, Option, none, some, inl, inr, List,
  [], ◌∷◌, arith, ◌==◌, ltb, All, Bool-cases, List-cases, get_or_past,
}
use barium.Sched.Thread.{
  ready, running, sleeping, dead, ThreadState, is_running, Thread, Cpu, queue,
}
use barium.Sched.Reschedule.{wake, top_queue, Switch, must_switch, switch_to, account, choose}
use barium.Sched.Count.{count, count_all}
use barium.Sched.Invariant.{IsAsleep, IsQueues}
use barium.Sched.Wake.{wake-Woken}
use barium.Sched.Age.{sched_age_threads-Aged}

-- The queues above `p`, below `n`, are empty.
abbrev pub EmptyAbove : ℕ → ℕ → List (List Thread) → Type 0
EmptyAbove p n qs = (q : ℕ) → p < q → q < n → queue qs q ≡ []

-- What the loop from the highest priority down finds.
pub data Top (n : ℕ) (qs : List (List Thread)) : Option ℕ → Type 0 where
  idle : ((q : ℕ) → q < n → queue qs q ≡ []) → Top n qs none
  at :
      (p : ℕ) (t : Thread) (ts : List Thread)
      → p < n
      → queue qs p ≡ t ∷ ts
      → EmptyAbove p n qs
      → Top n qs (some p)

Top-suc :
    (n : ℕ) {qs : List (List Thread)} {o : Option ℕ}
    → queue qs n ≡ []
    → Top n qs o
    → Top (suc n) qs o
Top-suc n e (idle h) = idle λ q lt. elim (Bool-cases (q == n)) [
  | inl same ↦ let eq : q ≡ n = ground arith in rw eq e
  | inr other ↦ h q (ground arith)
]
Top-suc n e (at p t ts lt f h) = at p t ts (omega arith) f λ q above below.
    elim (Bool-cases (q == n)) [
      | inl same ↦ let eq : q ≡ n = ground arith in rw eq e
      | inr other ↦ h q above (ground arith)
    ]

top_queue-Top : (n : ℕ) (qs : List (List Thread)) → Top n qs (top_queue n qs)
unfolding top_queue
top_queue-Top zero qs = idle λ q lt. absurd (omega arith)
top_queue-Top (suc n) qs =
    let below = top_queue-Top n qs in
    elim (List-cases (queue qs n)) [
      | inl e ↦ rw (e, top_queue) (Top-suc n e below)
      | inr (t, ts, e) ↦
          rw (e, top_queue) (at n t ts (omega arith) e λ q above below. absurd (omega arith))
    ]

-- The first half keeps the queues well formed and loses no thread.
pub record Accounted (rsp : ℕ) (t : Thread) (cpu cpu' : Cpu) : Type 0 where
  pub queues : IsQueues cpu'.ready_queues
  pub asleep : All IsAsleep cpu'.sleep_queue
  pub thread :
      cpu'.sched_thread ≡ some (record t { rsp = rsp; ticks_remaining = t.ticks_remaining - 1 })
  pub kept :
      (x : ℕ)
      → count_all x cpu'.ready_queues + count x cpu'.sleep_queue
        ≡ count_all x cpu.ready_queues + count x cpu.sleep_queue

pub account-Accounted :
    (tick rsp : ℕ) (t : Thread) (cpu : Cpu)
    → IsQueues cpu.ready_queues
    → All IsAsleep cpu.sleep_queue
    → Accounted rsp t cpu (account tick rsp t cpu)
unfolding account
account-Accounted tick rsp t cpu v a =
    let w = wake-Woken tick cpu.sleep_queue v a in
    let woken = wake tick cpu.sleep_queue cpu.ready_queues in
    let middle = record cpu {
      sched_thread = some (record t { rsp = rsp; ticks_remaining = t.ticks_remaining - 1 });
      ready_queues = woken.1;
      sleep_queue = woken.0;
    } in
    let g = sched_age_threads-Aged tick middle w.queues in
    record {
      queues = g.queues;
      asleep = rw g.sleepers w.still;
      thread = g.thread;
      kept = λ x. rw g.sleepers (omega (arith, g.kept x, w.kept x));
    }

-- The two ends of `sched_reschedule`: the running thread goes on, or the first thread of the
-- highest queue with a thread takes over.
pub data Chose (t : Thread) (cpu : Cpu) (r : Switch) : Type 0 where
  stay :
      r ≡ record { cpu = cpu; rsp = t.rsp; freed = [] }
      → ((q : ℕ) → t.priority < q → queue cpu.ready_queues q ≡ [])
      → (t.state ≡ running) ⊎ ((q : ℕ) → queue cpu.ready_queues q ≡ [])
      → Chose t cpu r
  go :
      (p : ℕ) (next : Thread) (rest : List Thread)
      → p < 32
      → queue cpu.ready_queues p ≡ next ∷ rest
      → ((q : ℕ) → p < q → queue cpu.ready_queues q ≡ [])
      → (t.state ≡ running → t.priority ≤ p)
      → r ≡ switch_to t cpu p
      → Chose t cpu r

is_running_iff : (s : ThreadState) → is_running s ≡ true → s ≡ running
is_running_iff ready h = cc
is_running_iff running h = refl
is_running_iff sleeping h = cc
is_running_iff dead h = cc

pub queue_past : {qs : List (List Thread)} (q : ℕ) → IsQueues qs → 32 ≤ q → queue qs q ≡ []
queue_past {qs} q v h = get_or_past qs q [] (omega (arith, v.size))

above_all :
    {qs : List (List Thread)} {p : ℕ}
    → IsQueues qs
    → EmptyAbove p 32 qs
    → (q : ℕ) → p < q
    → queue qs q ≡ []
above_all v h q lt = elim (Bool-cases (ltb q 32)) [
  | inl below ↦ h q lt (ground arith)
  | inr past ↦ queue_past q v (ground arith)
]

must_switch-le : (t : Thread) (p : ℕ) → must_switch t p ≡ true → t.state ≡ running → t.priority ≤ p
unfolding must_switch
must_switch-le t p h e = ground arith

must_switch-no :
    (t : Thread) (p : ℕ) → must_switch t p ≡ false → (p ≤ t.priority) × (t.state ≡ running)
unfolding must_switch
must_switch-no t p h = ground (arith, is_running_iff t.state)

choose_at :
    (t : Thread) (cpu : Cpu) {o : Option ℕ}
    → IsQueues cpu.ready_queues
    → top_queue 32 cpu.ready_queues ≡ o
    → Top 32 cpu.ready_queues o
    → Chose t cpu (choose t cpu)
unfolding choose
choose_at t cpu v e (idle h) =
    rw (e, choose)
      (stay refl (λ q lt. above_all {p = 0} v (λ q above below. h q below) q (omega arith))
        (inr (λ q. elim (Bool-cases (ltb q 32)) [
          | inl below ↦ h q (ground arith)
          | inr past ↦ queue_past q v (ground arith)
        ])))
choose_at t cpu v e (at p next rest lt front above) = elim (Bool-cases (must_switch t p)) [
  | inl m ↦
      rw (e, choose)
        (rw m (go p next rest lt front (above_all v above) (must_switch-le t p m) refl))
  | inr m ↦
      rw (e, choose)
        (rw m (
          stay refl (λ q h. above_all v above q (omega (arith, must_switch-no t p m)))
            (inl (must_switch-no t p m).1)))
]

pub choose-Chose : (t : Thread) (cpu : Cpu) → IsQueues cpu.ready_queues → Chose t cpu (choose t cpu)
choose-Chose t cpu v = choose_at t cpu v refl (top_queue-Top 32 cpu.ready_queues)
