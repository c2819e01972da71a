-- ===== src/Sched/Count.antt =====
-- How often a thread id stands in the queues of a CPU.
use barium.Prelude.{
  ℕ, zero, suc, ◌+◌, ◌<◌, ◌≡◌, refl, Option, none, some, List, [], ◌∷◌, ◌++◌, arith, ◌==◌,
  if◌then◌else◌, set, length, All, length-set,
}
use barium.Sched.Thread.{Thread, Cpu, queue, push, push_back}
use barium.Sched.Reschedule.{push_all}

abbrev pub one_if : ℕ → Thread → ℕ
one_if x t = if t.tid == x then 1 else 0

unfoldable pub count : ℕ → List Thread → ℕ
count x [] = 0
count x (t ∷ ts) = one_if x t + count x ts

unfoldable pub count_all : ℕ → List (List Thread) → ℕ
count_all x [] = 0
count_all x (ts ∷ qs) = count x ts + count_all x qs

unfoldable pub count_option : ℕ → Option Thread → ℕ
count_option x none = 0
count_option x (some t) = one_if x t

-- The threads with id `x` that a CPU knows: the one that runs, those ready and those asleep.
unfoldable pub on_cpu : ℕ → Cpu → ℕ
unfolding count_option
on_cpu x cpu =
    count_option x cpu.sched_thread + count_all x cpu.ready_queues + count x cpu.sleep_queue

pub count-append : (x : ℕ) (ts us : List Thread) → count x (ts ++ us) ≡ count x ts + count x us
unfolding count
count-append x [] us = omega arith
count-append x (t ∷ ts) us = omega (arith, count-append x ts us)

-- Replacing a queue.
pub count_all-set :
    (x : ℕ) (qs : List (List Thread)) (p : ℕ) (ts : List Thread)
    → p < length qs
    → count_all x (set qs p ts) + count x (queue qs p) ≡ count_all x qs + count x ts
unfolding count_all
count_all-set x [] p ts h = absurd (omega arith)
count_all-set x (us ∷ qs) zero ts h = omega arith
count_all-set x (us ∷ qs) (suc p) ts h = omega (arith, count_all-set x qs p ts (omega arith))

pub count_all-push :
    (x : ℕ) (qs : List (List Thread)) (t : Thread)
    → t.priority < length qs
    → count_all x (push qs t) ≡ count_all x qs + one_if x t
unfolding push count
count_all-push x qs t h = omega (arith, count_all-set x qs t.priority (t ∷ queue qs t.priority) h)

pub count_all-push_back :
    (x : ℕ) (qs : List (List Thread)) (t : Thread)
    → t.priority < length qs
    → count_all x (push_back qs t) ≡ count_all x qs + one_if x t
unfolding push_back count
count_all-push_back x qs t h = omega (
  arith,
  count_all-set x qs t.priority (queue qs t.priority ++ (t ∷ [])) h,
  count-append x (queue qs t.priority) (t ∷ []),
)

pub length-push : (qs : List (List Thread)) (t : Thread) → length (push qs t) ≡ length qs
unfolding push
length-push qs t = length-set qs t.priority (t ∷ queue qs t.priority)

pub length-push_all :
    (qs : List (List Thread)) (ts : List Thread) → length (push_all qs ts) ≡ length qs
unfolding push_all
length-push_all qs [] = refl
length-push_all qs (t ∷ ts) = omega (arith, length-push_all (push qs t) ts, length-push qs t)

pub count_all-push_all :
    (x : ℕ) (qs : List (List Thread)) (ts : List Thread)
    → All (λ t. t.priority < length qs) ts
    → count_all x (push_all qs ts) ≡ count_all x qs + count x ts
unfolding push_all count
count_all-push_all x qs [] h = omega arith
count_all-push_all x qs (t ∷ ts) h = omega (
  arith,
  count_all-push_all x (push qs t) ts (rw (length-push qs t) h.1),
  count_all-push x qs t h.0,
)
