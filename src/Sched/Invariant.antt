-- ===== src/Sched/Invariant.antt =====
-- The invariant of a CPU's queues: a thread that is ready stands in the queue of its priority.
use barium.Prelude.{
  ℕ, zero, suc, ◌≤◌, ◌≡◌, ◌≢◌, refl, ◌∙◌, ◌&&◌, Option, none, some, inl, inr, List, [], ◌∷◌, ◌++◌,
  arith, ◌==◌, ltb, set, length, All, length-set, get_or-set, get_or-set_ne, replicate, All-append,
  Bool-cases,
}
use barium.Sched.Thread.{ready, sleeping, max_priority, Thread, Cpu, queue, push, push_back}
use barium.Sched.Reschedule.{push_all}

abbrev pub InQueue : ℕ → Thread → Type 0
InQueue p t = (t.priority ≡ p) × (t.state ≡ ready)

abbrev pub IsAsleep : Thread → Type 0
IsAsleep t = (t.priority ≤ max_priority) × (t.state ≡ sleeping)

abbrev pub Placed : List (List Thread) → Type 0
Placed qs = (p : ℕ) → All (InQueue p) (queue qs p)

-- 32 queues, each with ready threads of its priority.
pub record IsQueues (qs : List (List Thread)) : Type 0 where
  pub size : length qs ≡ 32
  pub placed : Placed qs

-- The thread that runs may sleep or be dead until the next interrupt, but is not ready.
abbrev pub IsCurrent : Option Thread → Type 0
IsCurrent none = Unit
IsCurrent (some t) = (t.priority ≤ max_priority) × (t.state ≢ ready)

pub record IsValid (cpu : Cpu) : Type 0 where
  pub queues : IsQueues cpu.ready_queues
  pub asleep : All IsAsleep cpu.sleep_queue
  pub current : IsCurrent cpu.sched_thread

pub queue-replicate : (n p : ℕ) → queue (replicate n []) p ≡ []
queue-replicate zero p = refl
queue-replicate (suc n) zero = refl
queue-replicate (suc n) (suc p) = queue-replicate n p

-- The queues after `sched_init`.
pub replicate-IsQueues : IsQueues (replicate 32 [])
replicate-IsQueues = record { size = refl; placed = λ p. rw (queue-replicate 32 p) tt }

pub set-IsQueues :
    {qs : List (List Thread)} (p : ℕ) (ts : List Thread)
    → IsQueues qs
    → All (InQueue p) ts
    → IsQueues (set qs p ts)
set-IsQueues {qs} p ts v h = record {
  size = length-set qs p ts ∙ v.size;
  placed = λ q. elim (Bool-cases ((p == q) && ltb p (length qs))) [
    | inl hit ↦ let e : p ≡ q = ground arith in rw (get_or-set qs p q ts []) (rw hit (rw (← e) h))
    | inr miss ↦ rw (get_or-set qs p q ts []) (rw miss (v.placed q))
  ];
}

pub push-IsQueues :
    {qs : List (List Thread)} (t : Thread) → IsQueues qs → t.state ≡ ready → IsQueues (push qs t)
unfolding push
push-IsQueues {qs} t v h =
    set-IsQueues t.priority (t ∷ queue qs t.priority) v ((refl, h), v.placed t.priority)

pub push_back-IsQueues :
    {qs : List (List Thread)} (t : Thread)
    → IsQueues qs
    → t.state ≡ ready
    → IsQueues (push_back qs t)
unfolding push_back
push_back-IsQueues {qs} t v h = set-IsQueues t.priority (queue qs t.priority ++ (t ∷ [])) v (
    All-append (InQueue t.priority) (queue qs t.priority) (t ∷ []) (v.placed t.priority)
      ((refl, h), tt))

pub push_all-IsQueues :
    (p : ℕ) (ts : List Thread) {qs : List (List Thread)}
    → IsQueues qs
    → All (InQueue p) ts
    → IsQueues (push_all qs ts)
unfolding push_all
push_all-IsQueues p [] v h = v
push_all-IsQueues p (t ∷ ts) v h = push_all-IsQueues p ts (push-IsQueues t v h.0.1) h.1

pub queue-push_back_ne :
    (qs : List (List Thread)) (t : Thread) (q : ℕ)
    → t.priority ≢ q
    → queue (push_back qs t) q ≡ queue qs q
unfolding push_back
queue-push_back_ne qs t q ne = get_or-set_ne qs (queue qs t.priority ++ (t ∷ [])) [] ne

pub queue-set_ne :
    (qs : List (List Thread)) (ts : List Thread) {p q : ℕ}
    → p ≢ q
    → queue (set qs p ts) q ≡ queue qs q
queue-set_ne qs ts ne = get_or-set_ne qs ts [] ne
