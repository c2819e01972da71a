-- ===== src/Sched/Handover.antt =====
-- The switch of `sched_reschedule` from one thread to another.
use barium.Prelude.{
  ℕ, ◌+◌, ◌≤◌, ◌<◌, ◌≡◌, ◌≢◌, refl, ap, ◌∙◌, some, List, [], ◌∷◌, arith, ◌==◌, if◌then◌else◌, set,
  All,
}
use barium.Sched.Thread.{
  ready, running, sleeping, dead, ThreadState, max_priority, Thread, Cpu, queue, time_slice,
}
use barium.Sched.Reschedule.{Switch, put_away, switch_to}
use barium.Sched.Count.{count, count_all, one_if, on_cpu, count_all-set, count_all-push_back}
use barium.Sched.Invariant.{
  InQueue, IsAsleep, IsQueues, IsValid, set-IsQueues, push_back-IsQueues, queue-push_back_ne,
  queue-set_ne,
}

-- What becomes of the thread that ran.
record Put (t : Thread) (qs : List (List Thread)) (asleep : List Thread)
    (r : List (List Thread) × List Thread × List ℕ) : Type 0 where
  queues : IsQueues r.0
  sleepers : All IsAsleep r.1
  kept :
      (t.state ≢ dead)
      → (x : ℕ) → count_all x r.0 + count x r.1 ≡ count_all x qs + count x asleep + one_if x t
  none_freed : (t.state ≢ dead) → r.2 ≡ []
  others : (q : ℕ) → (t.state ≡ running → t.priority < q) → queue r.0 q ≡ queue qs q

put_away-Put :
    (s : ThreadState) (t : Thread) (qs : List (List Thread)) (asleep : List Thread)
    → t.state ≡ s
    → s ≢ ready
    → t.priority ≤ max_priority
    → IsQueues qs
    → All IsAsleep asleep
    → Put t qs asleep (put_away s t qs asleep)
unfolding put_away count
put_away-Put ready t qs asleep e ne le v a = absurd (ne refl)
put_away-Put running t qs asleep e ne le v a =
    let again = record t { state = ready; ticks_remaining = time_slice t.priority } in
    record {
      queues = push_back-IsQueues again v refl;
      sleepers = a;
      kept = λ alive x. omega (arith, count_all-push_back x qs again (omega (arith, v.size)));
      none_freed = λ alive. refl;
      others = λ q h. queue-push_back_ne qs again q (ground (arith, h e));
    }
put_away-Put sleeping t qs asleep e ne le v a = record {
  queues = v;
  sleepers = ((le, e), a);
  kept = λ alive x. omega arith;
  none_freed = λ alive. refl;
  others = λ q h. refl;
}
put_away-Put dead t qs asleep e ne le v a = record {
  queues = v;
  sleepers = a;
  kept = λ alive. absurd (alive e);
  none_freed = λ alive. absurd (alive e);
  others = λ q h. refl;
}

-- The switch from `t` to `next`, which stands before `rest` in queue `p`.
unfoldable pub switched : Thread → Cpu → ℕ → Thread → List Thread → Switch
switched t cpu p next rest =
    let (qs, asleep, freed) = put_away t.state t (set cpu.ready_queues p rest) cpu.sleep_queue in
    record {
      cpu = record cpu {
        sched_thread = some (record next { state = running });
        ready_queues = qs;
        sleep_queue = asleep;
        rsp0 = next.stack_top;
        kernel_stack = next.stack_top;
      };
      rsp = next.rsp;
      freed = freed;
    }

pub switch_to-switched :
    (t : Thread) (cpu : Cpu) (p : ℕ) {next : Thread} {rest : List Thread}
    → queue cpu.ready_queues p ≡ next ∷ rest
    → switch_to t cpu p ≡ switched t cpu p next rest
unfolding switch_to switched
switch_to-switched t cpu p e = rw (e, switch_to)

-- What a dead thread leaves to be freed.
abbrev pub remains : Thread → List ℕ
remains t =
    if t.priority == 0
    then []
    else if t.user_stack_limit == 0
    then t.stack_limit ∷ t.address ∷ []
    else t.user_stack_limit ∷ t.stack_limit ∷ t.address ∷ []

put_away_dead :
    (s : ThreadState) (t : Thread) (qs : List (List Thread)) (asleep : List Thread)
    → s ≡ dead
    → put_away s t qs asleep ≡ (qs, asleep, remains t)
unfolding put_away
put_away_dead ready t qs asleep e = cc
put_away_dead running t qs asleep e = cc
put_away_dead sleeping t qs asleep e = cc
put_away_dead dead t qs asleep e = refl

-- The CPU after a switch, with the parts that the theorems read.
module _ (t : Thread) (cpu : Cpu) (p : ℕ) {next : Thread} {rest : List Thread}
    (v : IsQueues cpu.ready_queues) (a : All IsAsleep cpu.sleep_queue)
    (front : queue cpu.ready_queues p ≡ next ∷ rest) (lt : p < 32) (le : t.priority ≤ max_priority)
    (ne : t.state ≢ ready) where
  pub front-InQueue : InQueue p next × All (InQueue p) rest
  front-InQueue = rw front at (v.placed p)

  put :
      Put t
        (set cpu.ready_queues p rest)
        cpu.sleep_queue
        (put_away t.state t (set cpu.ready_queues p rest) cpu.sleep_queue)
  put =
      put_away-Put t.state t (set cpu.ready_queues p rest) cpu.sleep_queue refl ne le
        (set-IsQueues p rest v front-InQueue.1) a

  pub switched-IsValid : IsValid (switched t cpu p next rest).cpu
  unfolding switched
  switched-IsValid = record {
    queues = put.queues;
    asleep = put.sleepers;
    current = (omega (arith, front-InQueue.0.0), λ (e : running ≡ ready). cc);
  }

  pub switched-count :
      t.state ≢ dead
      → (x : ℕ)
      → on_cpu x (switched t cpu p next rest).cpu
        ≡ one_if x t + count_all x cpu.ready_queues + count x cpu.sleep_queue
  unfolding switched on_cpu count
  switched-count alive x =
      let head : count x (queue cpu.ready_queues p) ≡ one_if x next + count x rest =
        ap (count x) front in
      omega (
        arith,
        put.kept alive x,
        count_all-set x cpu.ready_queues p rest (omega (arith, v.size)),
        head,
      )

  pub switched_top :
      ((q : ℕ) → p < q → queue cpu.ready_queues q ≡ [])
      → (t.state ≡ running → t.priority ≤ p)
      → (q : ℕ) → p < q
      → queue (switched t cpu p next rest).cpu.ready_queues q ≡ []
  unfolding switched
  switched_top above run q more =
      put.others q (λ e. omega (arith, run e))
      ∙ queue-set_ne cpu.ready_queues rest (omega arith)
      ∙ above q more

  pub switched-freed : t.state ≢ dead → (switched t cpu p next rest).freed ≡ []
  unfolding switched
  switched-freed alive = put.none_freed alive

  pub switched_dead :
      t.state ≡ dead
      → ((x : ℕ)
          → on_cpu x (switched t cpu p next rest).cpu
            ≡ count_all x cpu.ready_queues + count x cpu.sleep_queue)
        × ((switched t cpu p next rest).freed ≡ remains t)
  unfolding switched on_cpu count
  switched_dead gone =
      let e = put_away_dead t.state t (set cpu.ready_queues p rest) cpu.sleep_queue gone in
      (
        λ x.
            let head : count x (queue cpu.ready_queues p) ≡ one_if x next + count x rest =
              ap (count x) front in
            rw e (
              omega (arith, count_all-set x cpu.ready_queues p rest (omega (arith, v.size)), head)),
        rw e,
      )
