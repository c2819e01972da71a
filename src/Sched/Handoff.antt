-- ===== src/Sched/Handoff.antt =====
-- `sched_handoff` moves one ready thread and keeps all others.
use barium.Prelude.{
  ℕ, zero, suc, ◌+◌, ◌≤◌, ◌<◌, ◌≡◌, ◌≢◌, refl, ap, ◌∙◌, ◌⊎◌, Bool, true, false, Option, none, some,
  inl, inr, List, [], ◌∷◌, arith, ◌==◌, length, All, set, get_or, get_or-set_self, All-get_or,
  All-set, ◌%◌, Bool-cases,
}
use barium.Sched.Thread.{ready, max_priority, Thread, Cpu, queue, push}
use barium.Sched.Count.{count, count_all, one_if, on_cpu, count_all-set}
use barium.Sched.Invariant.{InQueue, IsQueues, IsValid, set-IsQueues}
use barium.Sched.System.{System, blank_cpu, unlink, unlink_queues, unlink_cpus, sched_handoff}
use barium.Sched.Threads.{total, total-set, join-IsValid, on_cpu-push, queue-push}

-- What the search in one queue finds.
abbrev Taken : ℕ → ℕ → List Thread → Option (Thread × List Thread) → Type 0
Taken tid p ts none = count tid ts ≡ 0
Taken tid p ts (some (t, us)) =
    (t.tid ≡ tid)
    × InQueue p t
    × All (InQueue p) us
    × ((x : ℕ) → count x ts ≡ one_if x t + count x us)

skip_thread :
    (tid p : ℕ) (t : Thread) (ts : List Thread) (o : Option (Thread × List Thread))
    → InQueue p t
    → (t.tid == tid) ≡ false
    → Taken tid p ts o
    → Taken tid p (t ∷ ts) (elim o [ none ↦ none | some (u, us) ↦ some (u, t ∷ us) ])
unfolding count
skip_thread tid p t ts none i ne h = ground arith
skip_thread tid p t ts (some (u, us)) i ne h = (h.0, h.1, (i, h.2), λ x. omega (arith, h.3 x))

unlink-Taken : (tid p : ℕ) (ts : List Thread) → All (InQueue p) ts → Taken tid p ts (unlink tid ts)
unfolding unlink count
unlink-Taken tid p [] h = refl
unlink-Taken tid p (t ∷ ts) h = elim (Bool-cases (t.tid == tid)) [
  | inl hit ↦ rw hit (ground arith, h.0, h.1, λ x. refl)
  | inr miss ↦ rw miss (skip_thread tid p t ts (unlink tid ts) h.0 miss (unlink-Taken tid p ts h.1))
]

-- What the search in the queues of a CPU finds, among the first `n`.
abbrev TakenAll : ℕ → ℕ → List (List Thread) → Option (Thread × List (List Thread)) → Type 0
TakenAll tid n qs none = (p : ℕ) → p < n → count tid (queue qs p) ≡ 0
TakenAll tid n qs (some (t, qs')) =
    (t.tid ≡ tid)
    × (t.state ≡ ready)
    × IsQueues qs'
    × ((x : ℕ) → count_all x qs ≡ one_if x t + count_all x qs')

search_level :
    (tid p : ℕ) {qs : List (List Thread)} (o : Option (Thread × List Thread))
    (lower : Option (Thread × List (List Thread)))
    → IsQueues qs
    → p < 32
    → Taken tid p (queue qs p) o
    → TakenAll tid p qs lower
    → TakenAll tid (suc p) qs (elim o [ none ↦ lower | some (t, ts) ↦ some (t, set qs p ts) ])
search_level tid p {qs} (some (t, ts)) lower v lt h l = (
  h.0,
  h.1.1,
  set-IsQueues p ts v h.2,
  λ x. omega (arith, count_all-set x qs p ts (omega (arith, v.size)), h.3 x),
)
search_level tid p {qs} none none v lt h l = λ q below. elim (Bool-cases (q == p)) [
  | inl same ↦ let e : q ≡ p = ground arith in rw e h
  | inr other ↦ l q (ground arith)
]
search_level tid p none (some u) v lt h l = l

unlink_queues-TakenAll :
    (tid n : ℕ) {qs : List (List Thread)}
    → IsQueues qs
    → n ≤ 32
    → TakenAll tid n qs (unlink_queues tid n qs)
unfolding unlink_queues
unlink_queues-TakenAll tid zero v le = λ p lt. absurd (omega arith)
unlink_queues-TakenAll tid (suc p) {qs} v le =
    search_level tid p (unlink tid (queue qs p)) (unlink_queues tid p qs) v le
      (unlink-Taken tid p (queue qs p) (v.placed p)) (unlink_queues-TakenAll tid p v (omega arith))

-- No ready queue of a CPU has a thread with an id.
abbrev pub NotReady : ℕ → List Cpu → Type 0
NotReady tid = All (λ c. (p : ℕ) → p < 32 → count tid (queue c.ready_queues p) ≡ 0)

abbrev TakenCpus : ℕ → List Cpu → Option (Thread × List Cpu) → Type 0
TakenCpus tid cs none = NotReady tid cs
TakenCpus tid cs (some (t, cs')) =
    (t.tid ≡ tid)
    × (t.state ≡ ready)
    × All IsValid cs'
    × (length cs' ≡ length cs)
    × ((x : ℕ) → total x cs ≡ one_if x t + total x cs')

search_cpu :
    (tid : ℕ) (c : Cpu) (cs : List Cpu) (o : Option (Thread × List (List Thread)))
    (later : Option (Thread × List Cpu))
    → IsValid c
    → All IsValid cs
    → TakenAll tid 32 c.ready_queues o
    → TakenCpus tid cs later
    → TakenCpus tid (c ∷ cs) (elim o [
      | some (t, qs) ↦ some (t, record c { ready_queues = qs } ∷ cs)
      | none ↦ elim later [ none ↦ none | some (t, cs') ↦ some (t, c ∷ cs') ]
    ])
unfolding total on_cpu
search_cpu tid c cs (some (t, qs)) later v vs h l = (
  h.0,
  h.1,
  (record { queues = h.2; asleep = v.asleep; current = v.current }, vs),
  refl,
  λ x. omega (arith, h.3 x),
)
search_cpu tid c cs none none v vs h l = (h, l)
search_cpu tid c cs none (some (t, cs')) v vs h l =
    (l.0, l.1, (v, l.2), ap suc l.3, λ x. omega (arith, l.4 x))

unlink_cpus-TakenCpus :
    (tid : ℕ) (cs : List Cpu) → All IsValid cs → TakenCpus tid cs (unlink_cpus tid cs)
unfolding unlink_cpus
unlink_cpus-TakenCpus tid [] vs = tt
unlink_cpus-TakenCpus tid (c ∷ cs) vs =
    search_cpu tid c cs (unlink_queues tid 32 c.ready_queues) (unlink_cpus tid cs) vs.0 vs.1
      (unlink_queues-TakenAll tid 32 vs.0.queues (omega arith)) (unlink_cpus-TakenCpus tid cs vs.1)

-- What `sched_handoff` leaves: either nothing ready has the id, and nothing changes; or such a thread
-- heads the most urgent queue of this CPU.
abbrev pub HandedOff : ℕ → ℕ → System → System × Bool → Type 0
HandedOff this tid s (s', yields) =
    ((yields ≡ false) × (s' ≡ s) × NotReady tid s.cpus)
    ⊎ ((yields ≡ true)
        × ((t : Thread) × (ts : List Thread) × (queue (get_or s'.cpus this blank_cpu).ready_queues
                max_priority
              ≡ t ∷ ts)
            × (t.tid ≡ tid)
            × (t.priority ≡ max_priority)))

abbrev finish : ℕ → System → Option (Thread × List Cpu) → System × Bool
finish this s none = (s, false)
finish this s (some (t, cs)) =
    let cpu = get_or cs this blank_cpu in
    let t' = record t { priority = max_priority; core_affinity = cpu.cpu_id % 256 } in
    (record s { cpus = set cs this (record cpu { ready_queues = push cpu.ready_queues t' }) }, true)

finish_lem :
    (this tid : ℕ) (s : System) (o : Option (Thread × List Cpu))
    → All IsValid s.cpus
    → this < length s.cpus
    → TakenCpus tid s.cpus o
    → let r = finish this s o in
      All IsValid r.0.cpus × ((x : ℕ) → total x r.0.cpus ≡ total x s.cpus) × HandedOff this tid s r
finish_lem this tid s none vs lt h = (vs, λ x. refl, inl (refl, refl, h))
finish_lem this tid s (some (t, cs)) vs lt h =
    let cpu = get_or cs this blank_cpu in
    let t' = record t { priority = max_priority; core_affinity = cpu.cpu_id % 256 } in
    let here : this < length cs = omega (arith, h.3) in
    let v = All-get_or IsValid cs this blank_cpu here h.2 in
    let cpu' = record cpu { ready_queues = push cpu.ready_queues t' } in
    (
      All-set IsValid cs this cpu' h.2 (join-IsValid t' cpu v (omega arith) h.1),
      λ x.
          omega
            (arith, total-set x cs this cpu' here, on_cpu-push t' cpu v (omega arith) h.1 x, h.4 x),
      inr (
        refl,
        (
          t',
          queue cpu.ready_queues max_priority,
          ap (λ (c : Cpu). queue c.ready_queues max_priority)
                (get_or-set_self cs this cpu' blank_cpu here)
              ∙ queue-push t' cpu v (omega arith) h.1,
          h.0,
          refl,
        ),
      ),
    )

-- For an id other than 0, `sched_handoff` on one of the CPUs keeps the invariant of every CPU and
-- each thread of the system; if a ready thread has the id, it then heads the most urgent queue of
-- this CPU at the highest priority and the call yields, and otherwise nothing changes.
pub sched_handoff-HandedOff :
    (this tid : ℕ) {s : System}
    → All IsValid s.cpus
    → this < length s.cpus
    → tid ≢ 0
    → let r = sched_handoff this tid s in
      All IsValid r.0.cpus × ((x : ℕ) → total x r.0.cpus ≡ total x s.cpus) × HandedOff this tid s r
unfolding sched_handoff
sched_handoff-HandedOff this tid {s} vs lt ne =
    let test : (tid == 0) ≡ false = ground arith in
    rw test
      (finish_lem this tid s (unlink_cpus tid s.cpus) vs lt (unlink_cpus-TakenCpus tid s.cpus vs))
