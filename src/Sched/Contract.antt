-- ===== src/Sched/Contract.antt =====
-- What a call of `sched_reschedule` does: the invariant holds after it, no thread is lost, and no
-- ready thread is more urgent than the one that runs.
use barium.Prelude.{
  ℕ, ◌+◌, ◌-◌, ◌≤◌, ◌<◌, ◌≡◌, ◌≢◌, refl, ap, ◌∙◌, ◌⊎◌, Option, none, some, inl, inr, [], arith, All,
  Option-cases,
}
use barium.Sched.Thread.{ready, dead, max_priority, Thread, Cpu, queue}
use barium.Sched.Reschedule.{Switch, account, choose, sched_reschedule}
use barium.Sched.Count.{count, count_all, count_option, one_if, on_cpu}
use barium.Sched.Invariant.{IsAsleep, IsQueues, IsCurrent, IsValid}
use barium.Sched.Choice.{account-Accounted, Chose, stay, go, choose-Chose}
use barium.Sched.Handover.{
  switched, switch_to-switched, switched-IsValid, switched-count, switched_top, switched-freed,
  front-InQueue, remains, switched_dead,
}

-- A thread at the end of its time slice and with the stack pointer of the interrupt.
abbrev pub ticked : Thread → ℕ → Thread
ticked t rsp = record t { rsp = rsp; ticks_remaining = t.ticks_remaining - 1 }

reschedule_none :
    (tick rsp : ℕ) (cpu : Cpu)
    → cpu.sched_thread ≡ none
    → sched_reschedule tick cpu rsp ≡ record { cpu = cpu; rsp = rsp; freed = [] }
unfolding sched_reschedule
reschedule_none tick rsp cpu e = ground (arith, e)

pub reschedule_some :
    (tick rsp : ℕ) (cpu : Cpu) {t : Thread}
    → cpu.sched_thread ≡ some t
    → sched_reschedule tick cpu rsp ≡ choose (ticked t rsp) (account tick rsp t cpu)
unfolding sched_reschedule
reschedule_some tick rsp cpu e = ground (arith, e)

-- The running thread is not dead.
abbrev pub IsAlive : Option Thread → Type 0
IsAlive none = Unit
IsAlive (some t) = t.state ≢ dead

-- The priority of the thread that runs.
abbrev pub running_priority : Option Thread → ℕ
running_priority none = max_priority
running_priority (some t) = t.priority

module _ (tick rsp : ℕ) (t : Thread) (cpu : Cpu) (v : IsQueues cpu.ready_queues)
    (a : All IsAsleep cpu.sleep_queue) (le : t.priority ≤ max_priority) (ne : t.state ≢ ready) where
  chosen :
      Chose (ticked t rsp) (account tick rsp t cpu) (choose (ticked t rsp) (account tick rsp t cpu))
  chosen =
      choose-Chose (ticked t rsp) (account tick rsp t cpu)
        (account-Accounted tick rsp t cpu v a).queues

  choose-IsValid : (r : Switch) → Chose (ticked t rsp) (account tick rsp t cpu) r → IsValid r.cpu
  choose-IsValid r (stay e above busy) =
      let acc = account-Accounted tick rsp t cpu v a in
      rw e (record { queues = acc.queues; asleep = acc.asleep; current = rw acc.thread (le, ne) })
  choose-IsValid r (go p next rest lt front above run e) =
      let acc = account-Accounted tick rsp t cpu v a in
      rw e (
        rw (switch_to-switched (ticked t rsp) (account tick rsp t cpu) p front) (
          switched-IsValid (ticked t rsp) (account tick rsp t cpu) p acc.queues acc.asleep front lt
            le ne))

  choose-count :
      (r : Switch)
      → Chose (ticked t rsp) (account tick rsp t cpu) r
      → t.state ≢ dead
      → ((x : ℕ)
          → on_cpu x r.cpu ≡ one_if x t + count_all x cpu.ready_queues + count x cpu.sleep_queue)
        × (r.freed ≡ [])
  unfolding on_cpu
  choose-count r (stay e above busy) alive =
      let acc = account-Accounted tick rsp t cpu v a in
      rw e (λ x. omega (arith, acc.kept x, ap (count_option x) acc.thread), refl)
  choose-count r (go p next rest lt front above run e) alive =
      let acc = account-Accounted tick rsp t cpu v a in
      rw e (
        rw (switch_to-switched (ticked t rsp) (account tick rsp t cpu) p front) (
          λ x.
              switched-count (ticked t rsp) (account tick rsp t cpu) p acc.queues acc.asleep front
                lt le ne alive x
              ∙ omega (arith, acc.kept x),
          switched-freed (ticked t rsp) (account tick rsp t cpu) p acc.queues acc.asleep front lt le
              ne alive,
        ))

  -- A dead thread leaves the CPU at a switch.
  choose_dead :
      (r : Switch)
      → Chose (ticked t rsp) (account tick rsp t cpu) r
      → t.state ≡ dead
      → (((q : ℕ) → queue r.cpu.ready_queues q ≡ [])
          × ((x : ℕ)
              → on_cpu x r.cpu
                ≡ one_if x t + count_all x cpu.ready_queues + count x cpu.sleep_queue)
          × (r.freed ≡ []))
        ⊎ (((x : ℕ) → on_cpu x r.cpu ≡ count_all x cpu.ready_queues + count x cpu.sleep_queue)
            × (r.freed ≡ remains t))
  unfolding on_cpu
  choose_dead r (stay e above (inl run)) gone = cc
  choose_dead r (stay e above (inr idle)) gone =
      let acc = account-Accounted tick rsp t cpu v a in
      inl (
        λ q. ap (λ (s : Switch). queue s.cpu.ready_queues q) e ∙ idle q,
        λ x.
            ap (λ (s : Switch). on_cpu x s.cpu) e
            ∙ omega (arith, acc.kept x, ap (count_option x) acc.thread),
        ap (λ (s : Switch). s.freed) e,
      )
  choose_dead r (go p next rest lt front above run e) gone =
      let acc = account-Accounted tick rsp t cpu v a in
      let to = e ∙ switch_to-switched (ticked t rsp) (account tick rsp t cpu) p front in
      let buried =
        switched_dead (ticked t rsp) (account tick rsp t cpu) p acc.queues acc.asleep front lt le ne
          gone in
      inr (
        λ x. ap (λ (s : Switch). on_cpu x s.cpu) to ∙ buried.0 x ∙ acc.kept x,
        ap (λ (s : Switch). s.freed) to ∙ buried.1,
      )

  choose_top :
      (r : Switch)
      → Chose (ticked t rsp) (account tick rsp t cpu) r
      → (q : ℕ) → running_priority r.cpu.sched_thread < q
      → queue r.cpu.ready_queues q ≡ []
  choose_top r (stay e above busy) q lt =
      let acc = account-Accounted tick rsp t cpu v a in
      let same =
        ap (λ (s : Switch). running_priority s.cpu.sched_thread) e
        ∙ ap running_priority acc.thread in
      ap (λ (s : Switch). queue s.cpu.ready_queues q) e ∙ above q (omega (arith, same))
  choose_top r (go p next rest lt front above run e) q more =
      let acc = account-Accounted tick rsp t cpu v a in
      let to = e ∙ switch_to-switched (ticked t rsp) (account tick rsp t cpu) p front in
      let same = ap (λ (s : Switch). running_priority s.cpu.sched_thread) to in
      let urgent =
        front-InQueue (ticked t rsp) (account tick rsp t cpu) p acc.queues acc.asleep front lt le
          ne in
      ap (λ (s : Switch). queue s.cpu.ready_queues q) to
      ∙ switched_top (ticked t rsp) (account tick rsp t cpu) p acc.queues acc.asleep front lt le ne
          above run q (unfold switched in omega (arith, same, urgent.0.0))

-- `sched_reschedule` keeps the invariant of a CPU: there is a queue for each priority, each thread
-- of a queue is ready and has its priority, the sleepers sleep, and the running thread is not ready.
pub sched_reschedule-IsValid :
    (tick rsp : ℕ) {cpu : Cpu} → IsValid cpu → IsValid (sched_reschedule tick cpu rsp).cpu
sched_reschedule-IsValid tick rsp {cpu} v = elim (Option-cases cpu.sched_thread) [
  | inl e ↦ rw (reschedule_none tick rsp cpu e) v
  | inr (t, e) ↦
      let cur : IsCurrent (some t) = rw e at v.current in
      rw (reschedule_some tick rsp cpu e) (
        choose-IsValid tick rsp t cpu v.queues v.asleep cur.0 cur.1 _
          (chosen tick rsp t cpu v.queues v.asleep cur.0 cur.1))
]

-- While the thread that runs is not dead, `sched_reschedule` neither loses nor doubles a thread: each
-- id stands among the running, ready and sleeping threads as often as before, and nothing is freed.
pub sched_reschedule-conserves :
    (tick rsp : ℕ) {cpu : Cpu}
    → IsValid cpu
    → IsAlive cpu.sched_thread
    → let r = sched_reschedule tick cpu rsp in
      ((x : ℕ) → on_cpu x r.cpu ≡ on_cpu x cpu) × (r.freed ≡ [])
unfolding on_cpu
sched_reschedule-conserves tick rsp {cpu} v alive = elim (Option-cases cpu.sched_thread) [
  | inl e ↦ rw (reschedule_none tick rsp cpu e) (λ x. refl, refl)
  | inr (t, e) ↦
      let cur : IsCurrent (some t) = rw e at v.current in
      let living : IsAlive (some t) = rw e at alive in
      let (kept, none_freed) =
        choose-count tick rsp t cpu v.queues v.asleep cur.0 cur.1 _
          (chosen tick rsp t cpu v.queues v.asleep cur.0 cur.1) living in
      rw (reschedule_some tick rsp cpu e)
        (λ x. kept x ∙ omega (arith, ap (count_option x) e), none_freed)
]

-- When `sched_reschedule` returns, every ready queue above the priority of the thread that runs is
-- empty: no ready thread is more urgent.
pub sched_reschedule_urgent :
    (tick rsp : ℕ) {cpu : Cpu} (t : Thread)
    → IsValid cpu
    → cpu.sched_thread ≡ some t
    → let r = sched_reschedule tick cpu rsp in
      (q : ℕ) → running_priority r.cpu.sched_thread < q → queue r.cpu.ready_queues q ≡ []
sched_reschedule_urgent tick rsp {cpu} t v e =
    let cur : IsCurrent (some t) = rw e at v.current in
    rw (reschedule_some tick rsp cpu e) (
      choose_top tick rsp t cpu v.queues v.asleep cur.0 cur.1 _
        (chosen tick rsp t cpu v.queues v.asleep cur.0 cur.1))

-- When the running thread is dead, `sched_reschedule` either finds no thread ready, and then changes
-- no thread; or it switches, that thread is gone from the CPU while each other is kept, and what is
-- freed is its user stack if it has one, its stack and its record (nothing at priority 0).
pub sched_reschedule_dead :
    (tick rsp : ℕ) {cpu : Cpu} (t : Thread)
    → IsValid cpu
    → cpu.sched_thread ≡ some t
    → t.state ≡ dead
    → let r = sched_reschedule tick cpu rsp in
      (((q : ℕ) → queue r.cpu.ready_queues q ≡ [])
        × ((x : ℕ) → on_cpu x r.cpu ≡ on_cpu x cpu)
        × (r.freed ≡ []))
      ⊎ (((x : ℕ) → on_cpu x r.cpu + one_if x t ≡ on_cpu x cpu) × (r.freed ≡ remains t))
unfolding on_cpu
sched_reschedule_dead tick rsp {cpu} t v e gone =
    let cur : IsCurrent (some t) = rw e at v.current in
    rw (reschedule_some tick rsp cpu e)
      (elim (choose_dead tick rsp t cpu v.queues v.asleep cur.0 cur.1 _
        (chosen tick rsp t cpu v.queues v.asleep cur.0 cur.1) gone) [
          | inl (idle, kept, freed) ↦
              inl (idle, λ x. kept x ∙ omega (arith, ap (count_option x) e), freed)
          | inr (kept, freed) ↦ inr (λ x. omega (arith, kept x, ap (count_option x) e), freed)
        ])
