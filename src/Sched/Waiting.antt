-- ===== src/Sched/Waiting.antt =====
-- A thread that waits while others run: what an interrupt does to it.
use barium.Prelude.{
  ℕ, ◌+◌, ◌≡◌, ◌≢◌, refl, ◌⊎◌, inl, inr, List, [], ◌∷◌, arith, leb, set, All, Bool-cases, some,
}
use barium.Sched.Thread.{
  ThreadState, ready, running, sleeping, dead, Thread, Cpu, queue, push, time_slice,
}
use barium.Sched.Reschedule.{wake, put_away, switch_to, account, sched_reschedule, Switch}
use barium.Sched.Count.{on_cpu}
use barium.Sched.Invariant.{IsValid}
use barium.Sched.Wake.{wake-Woken}
use barium.Sched.Age.{sched_age_threads-Aged}
use barium.Sched.Choice.{account-Accounted, Chose, stay, go, choose-Chose}
use barium.Sched.Contract.{
  reschedule_some, ticked, sched_reschedule-conserves, sched_reschedule_dead,
}
use barium.Sched.Rank.{
  IsRanked, InQueues, InQueues-set, InQueues-push, InQueues-push_back, passes, age_threads-IsRanked,
}

-- The thread `x` does not sleep, and where it is ready it has the rank `b`.
pub record Waits (x b : ℕ) (cpu : Cpu) : Type 0 where
  pub ranked : InQueues (IsRanked x b) cpu.ready_queues
  pub awake : All (λ t. t.tid ≢ x) cpu.sleep_queue

wake-IsRanked :
    (x b tick : ℕ) (ts : List Thread) (qs : List (List Thread))
    → InQueues (IsRanked x b) qs
    → All (λ t. t.tid ≢ x) ts
    → let (asleep, qs') = wake tick ts qs in
      InQueues (IsRanked x b) qs' × All (λ t. t.tid ≢ x) asleep
unfolding wake
wake-IsRanked x b tick [] qs v h = (v, tt)
wake-IsRanked x b tick (t ∷ ts) qs v h = elim (Bool-cases (leb t.wakeup_tick tick)) [
  | inl due ↦
      let woken = record t { state = ready } in
      let pushed = InQueues-push (IsRanked x b) qs woken v (λ e. absurd (h.0 e)) in
      rw due (wake-IsRanked x b tick ts (push qs woken) pushed h.1)
  | inr early ↦ let r = wake-IsRanked x b tick ts qs v h.1 in rw early (r.0, (h.0, r.1))
]

-- The state that `account` ages: the sleepers have woken.
abbrev woken : ℕ → ℕ → Thread → Cpu → Cpu
woken tick rsp t cpu =
    let (asleep, qs) = wake tick cpu.sleep_queue cpu.ready_queues in
    record cpu { sched_thread = some (ticked t rsp); ready_queues = qs; sleep_queue = asleep }

account-Waits :
    (x b tick rsp : ℕ) (t : Thread) (cpu : Cpu)
    → x ≢ 1
    → IsValid cpu
    → Waits x b cpu
    → Waits x (b + passes tick cpu) (account tick rsp t cpu)
unfolding account passes
account-Waits x b tick rsp t cpu ne v w =
    let step = wake-IsRanked x b tick cpu.sleep_queue cpu.ready_queues w.ranked w.awake in
    let well = (wake-Woken tick cpu.sleep_queue v.queues v.asleep).queues in
    let aged = sched_age_threads-Aged tick (woken tick rsp t cpu) well in
    record {
      ranked = age_threads-IsRanked x b tick (woken tick rsp t cpu) ne well step.0;
      awake = rw (aged.sleepers) step.1;
    }

put_away-Waits :
    (s : ThreadState) (x b : ℕ) (t : Thread) (qs : List (List Thread)) (asleep : List Thread)
    → t.tid ≢ x
    → InQueues (IsRanked x b) qs
    → All (λ t. t.tid ≢ x) asleep
    → let (qs', asleep', freed) = put_away s t qs asleep in
      InQueues (IsRanked x b) qs' × All (λ t. t.tid ≢ x) asleep'
unfolding put_away
put_away-Waits running x b t qs asleep ne v h = (
  InQueues-push_back (IsRanked x b) qs
      (record t { state = ready; ticks_remaining = time_slice t.priority }) v (λ e. absurd (ne e)),
  h,
)
put_away-Waits sleeping x b t qs asleep ne v h = (v, (ne, h))
put_away-Waits dead x b t qs asleep ne v h = (v, h)
put_away-Waits ready x b t qs asleep ne v h = (v, h)

switch_to-Waits :
    (x b : ℕ) (t : Thread) (cpu : Cpu) (p : ℕ) (next : Thread) (rest : List Thread)
    → t.tid ≢ x
    → Waits x b cpu
    → queue cpu.ready_queues p ≡ next ∷ rest
    → Waits x b (switch_to t cpu p).cpu
unfolding switch_to
switch_to-Waits x b t cpu p next rest ne w front =
    let tail : All (IsRanked x b) (next ∷ rest) = rw front at (w.ranked p) in
    let r =
      put_away-Waits t.state x b t (set cpu.ready_queues p rest) cpu.sleep_queue ne
        (InQueues-set (IsRanked x b) cpu.ready_queues p rest w.ranked tail.1) w.awake in
    rw (front, switch_to) (record { ranked = r.0; awake = r.1 })

choose-Waits :
    (x b : ℕ) (t : Thread) (cpu : Cpu) (r : Switch)
    → t.tid ≢ x
    → Waits x b cpu
    → Chose t cpu r
    → Waits x b r.cpu
choose-Waits x b t cpu r ne w (stay e above busy) = rw e w
choose-Waits x b t cpu r ne w (go p next rest lt front above run e) =
    rw e (switch_to-Waits x b t cpu p next rest ne w front)

pub reschedule-Waits :
    (x b tick rsp : ℕ) (t : Thread) (cpu : Cpu)
    → x ≢ 1
    → IsValid cpu
    → Waits x b cpu
    → cpu.sched_thread ≡ some t
    → t.tid ≢ x
    → Waits x (b + passes tick cpu) (sched_reschedule tick cpu rsp).cpu
reschedule-Waits x b tick rsp t cpu first v w e ne = rw (reschedule_some tick rsp cpu e) (
    choose-Waits x (b + passes tick cpu) (ticked t rsp) (account tick rsp t cpu) _ ne
      (account-Waits x b tick rsp t cpu first v w)
      (choose-Chose (ticked t rsp) (account tick rsp t cpu)
        (account-Accounted tick rsp t cpu v.queues v.asleep).queues))

is_dead : (s : ThreadState) → (s ≡ dead) ⊎ (s ≢ dead)
is_dead ready = inr (λ e. cc)
is_dead running = inr (λ e. cc)
is_dead sleeping = inr (λ e. cc)
is_dead dead = inl refl

-- A thread that does not run is not lost, dead or alive as the other may be.
pub reschedule-on_cpu :
    (x tick rsp : ℕ) (t : Thread) (cpu : Cpu)
    → IsValid cpu
    → cpu.sched_thread ≡ some t
    → t.tid ≢ x
    → on_cpu x (sched_reschedule tick cpu rsp).cpu ≡ on_cpu x cpu
reschedule-on_cpu x tick rsp t cpu v e ne = elim (is_dead t.state) [
  | inl gone ↦ elim (sched_reschedule_dead tick rsp t v e gone) [
    | inl (idle, kept, freed) ↦ kept x
    | inr (kept, freed) ↦ ground (arith, kept x)
  ]
  | inr alive ↦ (sched_reschedule-conserves tick rsp v (rw e alive)).0 x
]
