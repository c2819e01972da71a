-- ===== src/Sched/Rank.antt =====
-- Aging raises every thread that waits: the rank of a thread in the passes of `sched_age_threads`.
use barium.Prelude.{
  ℕ, zero, suc, ◌+◌, ◌-◌, ◌*◌, ◌%◌, ◌^◌, ◌≤◌, ◌<◌, ◌≡◌, ◌≢◌, ◌&&◌, true, inl, inr, List, [], ◌∷◌,
  ◌++◌, arith, ◌==◌, ltb, set, length, All, All-append, get_or-set, Bool-cases, if◌then◌else◌,
}
use barium.Sched.Thread.{max_priority, Thread, Cpu, queue, push, push_back}
use barium.Sched.Reschedule.{
  age_thread, age_queue, push_all, age_level, age_levels, sched_age_threads,
}
use barium.Sched.Invariant.{InQueue, IsQueues}
use barium.Sched.Age.{age_level_lem, age_levels_lem}

-- A thread with the id `x` has spent `b` passes at least, of the 20 for each priority, or is at the top.
abbrev pub IsRanked : ℕ → ℕ → Thread → Type 0
IsRanked x b t =
    t.tid ≡ x
    → (t.total_ticks ≤ 19) × (t.priority < max_priority → b ≤ 20 * t.priority + t.total_ticks)

-- A property of every thread of every queue.
abbrev pub InQueues : (Thread → Type 0) → List (List Thread) → Type 0
InQueues P qs = (q : ℕ) → All P (queue qs q)

module _ (P : Thread → Type 0) where
  pub InQueues-set :
      (qs : List (List Thread)) (p : ℕ) (ts : List Thread)
      → InQueues P qs
      → All P ts
      → InQueues P (set qs p ts)
  InQueues-set qs p ts v h q = elim (Bool-cases ((p == q) && ltb p (length qs))) [
    | inl hit ↦ rw (get_or-set qs p q ts []) (rw hit h)
    | inr miss ↦ rw (get_or-set qs p q ts []) (rw miss (v q))
  ]

  pub InQueues-push :
      (qs : List (List Thread)) (t : Thread) → InQueues P qs → P t → InQueues P (push qs t)
  unfolding push
  InQueues-push qs t v h = InQueues-set qs t.priority (t ∷ queue qs t.priority) v (h, v t.priority)

  pub InQueues-push_back :
      (qs : List (List Thread)) (t : Thread) → InQueues P qs → P t → InQueues P (push_back qs t)
  unfolding push_back
  InQueues-push_back qs t v h =
      InQueues-set qs t.priority (queue qs t.priority ++ (t ∷ [])) v
        (All-append P (queue qs t.priority) (t ∷ []) (v t.priority) (h, tt))

-- Whether a call of `sched_age_threads` makes its pass.
unfoldable pub passes : ℕ → Cpu → ℕ
passes tick cpu = if ltb ((tick + 2 ^ 64 - cpu.last_age_tick) % 2 ^ 64) 20 then 0 else 1

-- A pass through the queues from 0 on: those below `p` are raised.
record IsRaised (x b p : ℕ) (qs : List (List Thread)) : Type 0 where
  all : InQueues (IsRanked x b) qs
  below : (q : ℕ) → q < p → All (IsRanked x (suc b)) (queue qs q)

IsRanked-lower : (x b : ℕ) (t : Thread) → IsRanked x (suc b) t → IsRanked x b t
IsRanked-lower x b t h e = ((h e).0, λ lt. omega (arith, (h e).1 lt))

All-lower : (x b : ℕ) (ts : List Thread) → All (IsRanked x (suc b)) ts → All (IsRanked x b) ts
All-lower x b [] h = tt
All-lower x b (t ∷ ts) h = (IsRanked-lower x b t h.0, All-lower x b ts h.1)

push-IsRaised :
    (x b p : ℕ) (t : Thread) (qs : List (List Thread))
    → IsRaised x b p qs
    → IsRanked x (suc b) t
    → IsRaised x b p (push qs t)
unfolding push
push-IsRaised x b p t qs v h = record {
  all = InQueues-push (IsRanked x b) qs t v.all (IsRanked-lower x b t h);
  below = λ q lt. elim (Bool-cases ((t.priority == q) && ltb t.priority (length qs))) [
    | inl hit ↦
        let e : t.priority ≡ q = ground arith in
        rw (get_or-set qs t.priority q (t ∷ queue qs t.priority) [])
          (rw hit (h, let low : t.priority < p = omega arith in v.below t.priority low))
    | inr miss ↦
        rw (get_or-set qs t.priority q (t ∷ queue qs t.priority) []) (rw miss (v.below q lt))
  ];
}

set-IsRaised :
    (x b p : ℕ) (qs : List (List Thread)) (ts : List Thread)
    → p < length qs
    → IsRaised x b p qs
    → All (IsRanked x (suc b)) ts
    → IsRaised x b (suc p) (set qs p ts)
set-IsRaised x b p qs ts inside v h = record {
  all = InQueues-set (IsRanked x b) qs p ts v.all (All-lower x b ts h);
  below = λ q lt. elim (Bool-cases (p == q)) [
    | inl hit ↦
        let hit' : ((p == q) && ltb p (length qs)) ≡ true = ground arith in
        rw (get_or-set qs p q ts []) (rw hit' h)
    | inr miss ↦ rw (get_or-set qs p q ts []) (rw miss (v.below q (ground arith)))
  ];
}

age_thread-IsRanked :
    (x b : ℕ) (t : Thread) → x ≢ 1 → IsRanked x b t → IsRanked x (suc b) (age_thread t).1
unfolding age_thread
age_thread-IsRanked x b t ne h = elim (Bool-cases (t.tid == 1)) [
  | inl first ↦ rw first (λ e. absurd (ne (ground arith)))
  | inr other ↦ elim (Bool-cases (ltb 19 (t.total_ticks + 1))) [
    | inl full ↦
        rw (other, full)
          (λ e. (
            omega arith,
            λ lt.
                let low : t.priority < max_priority = ground arith in
                ground (arith, (h e).1 low, (h e).0),
          ))
    | inr early ↦ rw (other, early) (λ e. (ground arith, λ lt. omega (arith, (h e).1 lt)))
  ]
]

age_queue-IsRanked :
    (x b : ℕ) (ts : List Thread)
    → x ≢ 1
    → All (IsRanked x b) ts
    → let (stay, move) = age_queue ts in
      All (IsRanked x (suc b)) stay × All (IsRanked x (suc b)) move
unfolding age_queue
age_queue-IsRanked x b [] ne h = (tt, tt)
age_queue-IsRanked x b (t ∷ ts) ne h =
    let first = age_thread-IsRanked x b t ne h.0 in
    let later = age_queue-IsRanked x b ts ne h.1 in
    elim (Bool-cases (age_thread t).0) [
      | inl moves ↦ rw moves (later.0, (first, later.1))
      | inr stays ↦ rw stays ((first, later.0), later.1)
    ]

push_all-IsRaised :
    (x b p : ℕ) (ts : List Thread) (qs : List (List Thread))
    → IsRaised x b p qs
    → All (IsRanked x (suc b)) ts
    → IsRaised x b p (push_all qs ts)
unfolding push_all
push_all-IsRaised x b p [] qs v h = v
push_all-IsRaised x b p (t ∷ ts) qs v h =
    push_all-IsRaised x b p ts (push qs t) (push-IsRaised x b p t qs v h.0) h.1

age_level-IsRaised :
    (x b p : ℕ) (qs : List (List Thread))
    → x ≢ 1
    → p < length qs
    → IsRaised x b p qs
    → IsRaised x b (suc p) (age_level qs p)
unfolding age_level
age_level-IsRaised x b p qs ne lt v =
    let r = age_queue-IsRanked x b (queue qs p) ne (v.all p) in
    push_all-IsRaised x b (suc p) (age_queue (queue qs p)).1 (set qs p (age_queue (queue qs p)).0)
      (set-IsRaised x b p qs (age_queue (queue qs p)).0 lt v r.0) r.1

age_levels-IsRaised :
    (n x b p : ℕ) (qs : List (List Thread))
    → x ≢ 1
    → p + n ≤ max_priority
    → IsQueues qs
    → IsRaised x b p qs
    → IsRaised x b (p + n) (age_levels n p qs)
unfolding age_levels
age_levels-IsRaised zero x b p qs ne le w v = let e : p + 0 ≡ p = omega arith in rw e v
age_levels-IsRaised (suc n) x b p qs ne le w v =
    let e : p + suc n ≡ p + 1 + n = omega arith in
    let s : suc p ≡ p + 1 = omega arith in
    let raised : IsRaised x b (p + 1) (age_level qs p) =
      rw (← s) (age_level-IsRaised x b p qs ne (omega (arith, w.size)) v) in
    rw e (
      age_levels-IsRaised n x b (p + 1) (age_level qs p) ne (omega arith)
        (age_level_lem p (omega arith) w).0 raised)

-- At the top priority there is nothing left to gain.
All_top :
    (x b q : ℕ) (ts : List Thread)
    → max_priority ≤ q
    → All (InQueue q) ts
    → All (IsRanked x b) ts
    → All (IsRanked x (suc b)) ts
All_top x b q [] le p h = tt
All_top x b q (t ∷ ts) le p h =
    (λ e. ((h.0 e).0, λ lt. absurd (omega (arith, p.0.0))), All_top x b q ts le p.1 h.1)

-- A pass of `sched_age_threads`, once 20 ticks have gone by, raises the rank of every thread that is
-- ready; before, it changes nothing.
pub age_threads-IsRanked :
    (x b tick : ℕ) (cpu : Cpu)
    → x ≢ 1
    → IsQueues cpu.ready_queues
    → InQueues (IsRanked x b) cpu.ready_queues
    → InQueues (IsRanked x (b + passes tick cpu)) (sched_age_threads tick cpu).ready_queues
unfolding sched_age_threads passes
age_threads-IsRanked x b tick cpu ne w v =
    elim (Bool-cases (ltb ((tick + 2 ^ 64 - cpu.last_age_tick) % 2 ^ 64) 20)) [
      | inl soon ↦ let e : b + 0 ≡ b = omega arith in rw (soon, e) v
      | inr late ↦
          let r =
            age_levels-IsRaised 31 x b 0 cpu.ready_queues ne (omega arith) w
              (record { all = v; below = λ q lt. absurd (omega arith) }) in
          let w' = (age_levels_lem 31 0 (omega arith) w).0 in
          let e : b + 1 ≡ suc b = omega arith in
          rw (late, e)
            (λ q. elim (Bool-cases (ltb q 31)) [
              | inl low ↦ r.below q (ground arith)
              | inr top ↦ All_top x b q _ (ground arith) (w'.placed q) (r.all q)
            ])
    ]
