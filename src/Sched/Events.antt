-- ===== src/Sched/Events.antt =====
-- A thread that waits while others run, exit, sleep and join: it rises to the top priority.
use barium.Prelude.{
  ℕ, ◌+◌, ◌/◌, ◌%◌, ◌^◌, ◌≤◌, ◌≡◌, ◌≢◌, refl, ◌∙◌, inl, inr, List, [], ◌∷◌, arith, ltb, All,
  Bool-cases, Option, none, some, false, ◌==◌,
}
use barium.Sched.Thread.{ready, sleeping, dead, max_priority, Thread, Cpu, queue, push}
use barium.Sched.Reschedule.{sched_reschedule, sched_exit, sched_sleep}
use barium.Sched.Threads.{join-IsValid, on_cpu-push}
use barium.Sched.Count.{on_cpu}
use barium.Sched.Invariant.{InQueue, IsCurrent, IsQueues, IsValid}
use barium.Sched.Choice.{queue_past}
use barium.Sched.Contract.{sched_reschedule-IsValid}
use barium.Sched.Rank.{IsRanked, InQueues, InQueues-push, passes}
use barium.Sched.Waiting.{Waits, reschedule-Waits, reschedule-on_cpu}

-- What happens on a CPU: an interrupt, at a tick and with a stack pointer; the thread that runs exits or
-- goes to sleep; or a thread joins the ready queues, by a spawn or a hand-over.
pub data Event : Type 0 where
  interrupt : (tick rsp : ℕ) → Event
  exits : Event
  sleeps : (tick ms : ℕ) → Event
  joins : Thread → Event

unfoldable pub step : Event → Cpu → Cpu
step (interrupt tick rsp) cpu = (sched_reschedule tick cpu rsp).cpu
step exits cpu = sched_exit cpu
step (sleeps tick ms) cpu = sched_sleep tick ms cpu
step (joins t) cpu = record cpu { ready_queues = push cpu.ready_queues t }

unfoldable pub run_events : List Event → Cpu → Cpu
run_events [] cpu = cpu
run_events (e ∷ es) cpu = run_events es (step e cpu)

-- How many aging passes an event makes, and how many all of them.
unfoldable pub passes_of : Event → Cpu → ℕ
passes_of (interrupt tick rsp) cpu = passes tick cpu
passes_of exits cpu = 0
passes_of (sleeps tick ms) cpu = 0
passes_of (joins t) cpu = 0

unfoldable pub count_passes : List Event → Cpu → ℕ
count_passes [] cpu = 0
count_passes (e ∷ es) cpu = passes_of e cpu + count_passes es (step e cpu)

-- The event is one of others than `x`: at an interrupt another thread runs, and what joins is another
-- thread, ready and with a priority that exists.
unfoldable pub IsOther : ℕ → Event → Cpu → Type 0
IsOther x (interrupt tick rsp) cpu = (t : Thread) × (cpu.sched_thread ≡ some t) × (t.tid ≢ x)
IsOther x exits cpu = Unit
IsOther x (sleeps tick ms) cpu = Unit
IsOther x (joins t) cpu = (t.tid ≢ x) × (t.priority ≤ max_priority) × (t.state ≡ ready)

unfoldable pub OthersRun : ℕ → List Event → Cpu → Type 0
OthersRun x [] cpu = Unit
OthersRun x (e ∷ es) cpu = IsOther x e cpu × OthersRun x es (step e cpu)

-- What an event of others keeps.
abbrev Kept : (x b : ℕ) → Cpu → Cpu → Type 0
Kept x b cpu cpu' = Waits x b cpu' × (on_cpu x cpu' ≡ on_cpu x cpu) × IsValid cpu'

-- The thread that runs takes another state, but not the ready one.
restated :
    (x b : ℕ) (t t' : Thread) (cpu : Cpu)
    → cpu.sched_thread ≡ some t
    → t'.tid ≡ t.tid
    → t'.priority ≡ t.priority
    → t'.state ≢ ready
    → IsValid cpu
    → Waits x b cpu
    → Kept x b cpu (record cpu { sched_thread = some t' })
unfolding on_cpu
restated x b t t' cpu e tid priority busy v w =
    let cur : IsCurrent (some t) = rw e at v.current in
    (
      record { ranked = w.ranked; awake = w.awake },
      rw (e, tid) refl,
      record { queues = v.queues; asleep = v.asleep; current = (rw priority cur.0, busy) },
    )

change-Kept :
    (x b : ℕ) (o : Option Thread) (cpu : Cpu) (f : Thread → Thread)
    → Kept x b cpu cpu
    → ((t : Thread) → o ≡ some t → Kept x b cpu (record cpu { sched_thread = some (f t) }))
    → Kept x b cpu (elim o [ none ↦ cpu | some t ↦ record cpu { sched_thread = some (f t) } ])
change-Kept x b none cpu f same changed = same
change-Kept x b (some t) cpu f same changed = changed t refl

exit-Kept : (x b : ℕ) (cpu : Cpu) → IsValid cpu → Waits x b cpu → Kept x b cpu (sched_exit cpu)
unfolding sched_exit
exit-Kept x b cpu v w =
    change-Kept x b cpu.sched_thread cpu (λ t. record t { state = dead }) (w, refl, v)
      (λ t e.
        restated x b t (record t { state = dead }) cpu e refl refl (λ (d : dead ≡ ready). cc) v w)

sleep-Kept :
    (x b tick ms : ℕ) (cpu : Cpu)
    → IsValid cpu
    → Waits x b cpu
    → Kept x b cpu (sched_sleep tick ms cpu)
unfolding sched_sleep
sleep-Kept x b tick ms cpu v w =
    let f : Thread → Thread =
      λ t. record t { state = sleeping; wakeup_tick = (tick + ms / 10) % 2 ^ 64 } in
    change-Kept x b cpu.sched_thread cpu f (w, refl, v)
      (λ t e. restated x b t (f t) cpu e refl refl (λ (d : sleeping ≡ ready). cc) v w)

step-Kept :
    (e : Event) (x b : ℕ) (cpu : Cpu)
    → x ≢ 1
    → IsValid cpu
    → Waits x b cpu
    → IsOther x e cpu
    → Kept x (b + passes_of e cpu) cpu (step e cpu)
unfolding step passes_of IsOther
step-Kept (interrupt tick rsp) x b cpu first v w (t, e, ne) = (
  reschedule-Waits x b tick rsp t cpu first v w e ne,
  reschedule-on_cpu x tick rsp t cpu v e ne,
  sched_reschedule-IsValid tick rsp v,
)
step-Kept exits x b cpu first v w o =
    let z : b + 0 ≡ b = omega arith in rw z (exit-Kept x b cpu v w)
step-Kept (sleeps tick ms) x b cpu first v w o =
    let z : b + 0 ≡ b = omega arith in rw z (sleep-Kept x b tick ms cpu v w)
step-Kept (joins t) x b cpu first v w (ne, le, e) =
    let z : b + 0 ≡ b = omega arith in
    let away : (t.tid == x) ≡ false = ground arith in
    rw z (
      record {
        ranked = InQueues-push (IsRanked x b) cpu.ready_queues t w.ranked (λ e. absurd (ne e));
        awake = w.awake;
      },
      ground (arith, on_cpu-push t cpu v le e x),
      join-IsValid t cpu v le e,
    )

run_events-Kept :
    (es : List Event) (x b : ℕ) (cpu : Cpu)
    → x ≢ 1
    → IsValid cpu
    → Waits x b cpu
    → OthersRun x es cpu
    → Kept x (b + count_passes es cpu) cpu (run_events es cpu)
unfolding run_events count_passes OthersRun
run_events-Kept [] x b cpu first v w o = let e : b + 0 ≡ b = omega arith in (rw e w, refl, v)
run_events-Kept (e ∷ es) x b cpu first v w o =
    let (w', same, v') = step-Kept e x b cpu first v w o.0 in
    let later = run_events-Kept es x (b + passes_of e cpu) (step e cpu) first v' w' o.1 in
    let sum : b + passes_of e cpu + count_passes es (step e cpu)
        ≡ b + (passes_of e cpu + count_passes es (step e cpu)) =
      omega arith in
    (rw (← sum) later.0, later.1 ∙ same, later.2)

All_top_priority :
    (x b : ℕ) (ts : List Thread)
    → 620 ≤ b
    → All (λ t. t.priority ≤ max_priority) ts
    → All (IsRanked x b) ts
    → All (λ t. t.tid ≡ x → t.priority ≡ max_priority) ts
All_top_priority x b [] enough le h = tt
All_top_priority x b (t ∷ ts) enough le h = (
  λ e. elim (Bool-cases (ltb t.priority 31)) [
    | inl low ↦ absurd (ground (arith, (h.0 e).0, (h.0 e).1))
    | inr top ↦ ground (arith, le.0)
  ],
  All_top_priority x b ts enough le.1 h.1,
)

All_queue_priority :
    (q : ℕ) (ts : List Thread)
    → q ≤ max_priority
    → All (InQueue q) ts
    → All (λ t. t.priority ≤ max_priority) ts
All_queue_priority q [] le h = tt
All_queue_priority q (t ∷ ts) le h = (omega (arith, h.0.0), All_queue_priority q ts le h.1)

queue_priority :
    (q : ℕ) {qs : List (List Thread)}
    → IsQueues qs
    → All (λ t. t.priority ≤ max_priority) (queue qs q)
queue_priority q {qs} v = elim (Bool-cases (ltb q 32)) [
  | inl inside ↦ All_queue_priority q (queue qs q) (ground arith) (v.placed q)
  | inr past ↦ rw (queue_past q v (ground arith)) tt
]

-- No thread waits below the top priority for ever: let the id of a thread not be 1, on a CPU where it
-- does not sleep and has the rank `b`, that is 20 for each priority and 1 for each pass counted since.
-- While others run at every interrupt, and exit, go to sleep and join the ready queues in any order in
-- between, it stands on the CPU as often as before, and when the rank and the aging passes made come to
-- 620, it has the top priority where it is ready.
pub run_events_top :
    (es : List Event) (x b : ℕ) (cpu : Cpu)
    → x ≢ 1
    → IsValid cpu
    → Waits x b cpu
    → OthersRun x es cpu
    → 620 ≤ b + count_passes es cpu
    → let cpu' = run_events es cpu in
      (on_cpu x cpu' ≡ on_cpu x cpu)
      × InQueues (λ t. t.tid ≡ x → t.priority ≡ max_priority) cpu'.ready_queues
run_events_top es x b cpu first v w o enough =
    let (r, same, v') = run_events-Kept es x b cpu first v w o in
    (
      same,
      λ q.
          All_top_priority x (b + count_passes es cpu) _ enough (queue_priority q v'.queues)
            (r.ranked q),
    )
