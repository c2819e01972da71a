-- ===== src/Sched/Age.antt =====
-- `sched_age_threads`: a thread that waits moves up, and none is lost.
use barium.Prelude.{
  ℕ, zero, suc, ◌+◌, ◌≤◌, ◌<◌, ◌≡◌, refl, ◌∙◌, ◌-◌, ◌%◌, ◌^◌, inl, inr, List, [], ◌∷◌, arith, ltb,
  set, All, Bool-cases,
}
use barium.Sched.Thread.{max_priority, Thread, Cpu, queue}
use barium.Sched.Reschedule.{age_thread, age_queue, age_level, age_levels, sched_age_threads}
use barium.Sched.Count.{count, count_all, count_all-set, count_all-push_all}
use barium.Sched.Invariant.{InQueue, IsQueues, set-IsQueues, push_all-IsQueues}

age_queue-InQueue :
    (p : ℕ) (ts : List Thread)
    → p < max_priority
    → All (InQueue p) ts
    → let (stay, move) = age_queue ts in All (InQueue p) stay × All (InQueue (p + 1)) move
unfolding age_queue age_thread
age_queue-InQueue p [] lt h = (tt, tt)
age_queue-InQueue p (t ∷ ts) lt h = ground (arith, age_queue-InQueue p ts lt h.1)

count-age_queue :
    (x : ℕ) (ts : List Thread)
    → let (stay, move) = age_queue ts in count x stay + count x move ≡ count x ts
unfolding age_queue age_thread count
count-age_queue x [] = refl
count-age_queue x (t ∷ ts) = ground (arith, count-age_queue x ts)

All-lt : (p n : ℕ) (ts : List Thread) → p < n → All (InQueue p) ts → All (λ t. t.priority < n) ts
All-lt p n [] lt h = tt
All-lt p n (t ∷ ts) lt h = (omega arith, All-lt p n ts lt h.1)

-- One queue: the queues stay well formed and keep their threads.
pub age_level_lem :
    (p : ℕ) {qs : List (List Thread)}
    → p < max_priority
    → IsQueues qs
    → IsQueues (age_level qs p) × ((x : ℕ) → count_all x (age_level qs p) ≡ count_all x qs)
unfolding age_level
age_level_lem p {qs} lt v =
    let (stay, move) = age_queue-InQueue p (queue qs p) lt (v.placed p) in
    let ws = set-IsQueues p (age_queue (queue qs p)).0 v stay in
    (
      push_all-IsQueues (p + 1) (age_queue (queue qs p)).1 ws move,
      λ x. omega (
        arith,
        count_all-set x qs p (age_queue (queue qs p)).0 (omega (arith, v.size)),
        count_all-push_all x (set qs p (age_queue (queue qs p)).0) (age_queue (queue qs p)).1
            (All-lt (p + 1) _ (age_queue (queue qs p)).1 (omega (arith, ws.size)) move),
        count-age_queue x (queue qs p),
      ),
    )

pub age_levels_lem :
    (n p : ℕ) {qs : List (List Thread)}
    → p + n ≤ max_priority
    → IsQueues qs
    → IsQueues (age_levels n p qs) × ((x : ℕ) → count_all x (age_levels n p qs) ≡ count_all x qs)
unfolding age_levels
age_levels_lem zero p lt v = (v, λ x. refl)
age_levels_lem (suc n) p lt v =
    let (w, same) = age_level_lem p (omega arith) v in
    let (w', same') = age_levels_lem n (p + 1) (omega arith) w in (w', λ x. same' x ∙ same x)

-- What aging keeps of a CPU.
pub record Aged (cpu cpu' : Cpu) : Type 0 where
  pub queues : IsQueues cpu'.ready_queues
  pub kept : (x : ℕ) → count_all x cpu'.ready_queues ≡ count_all x cpu.ready_queues
  pub thread : cpu'.sched_thread ≡ cpu.sched_thread
  pub sleepers : cpu'.sleep_queue ≡ cpu.sleep_queue

pub sched_age_threads-Aged :
    (tick : ℕ) (cpu : Cpu) → IsQueues cpu.ready_queues → Aged cpu (sched_age_threads tick cpu)
unfolding sched_age_threads
sched_age_threads-Aged tick cpu v =
    elim (Bool-cases (ltb ((tick + 2 ^ 64 - cpu.last_age_tick) % 2 ^ 64) 20)) [
      | inl soon ↦ rw soon (record { queues = v; kept = λ x. refl; thread = refl; sleepers = refl })
      | inr late ↦
          let (w, same) = age_levels_lem max_priority 0 (omega arith) v in
          rw late (record { queues = w; kept = same; thread = refl; sleepers = refl })
    ]
