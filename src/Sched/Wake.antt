-- ===== src/Sched/Wake.antt =====
-- The loop of `sched_reschedule` over the sleeping threads.
use barium.Prelude.{ℕ, ◌+◌, ◌<◌, ◌≡◌, refl, inl, inr, List, [], ◌∷◌, arith, leb, All, Bool-cases}
use barium.Sched.Thread.{ready, Thread}
use barium.Sched.Reschedule.{wake}
use barium.Sched.Count.{count, count_all, count_all-push}
use barium.Sched.Invariant.{IsAsleep, IsQueues, push-IsQueues}

-- What the loop does: the queues stay well formed, no thread is lost, and those that sleep on are
-- the ones whose time has not come.
pub record Woken (tick : ℕ) (ts asleep : List Thread) (qs qs' : List (List Thread)) : Type 0 where
  pub queues : IsQueues qs'
  pub still : All IsAsleep asleep
  pub later : All (λ t. tick < t.wakeup_tick) asleep
  pub kept : (x : ℕ) → count x asleep + count_all x qs' ≡ count x ts + count_all x qs

pub wake-Woken :
    (tick : ℕ) (ts : List Thread) {qs : List (List Thread)}
    → IsQueues qs
    → All IsAsleep ts
    → let (asleep, qs') = wake tick ts qs in Woken tick ts asleep qs qs'
unfolding wake count
wake-Woken tick [] v h = record { queues = v; still = tt; later = tt; kept = λ x. refl }
wake-Woken tick (t ∷ ts) {qs} v h = elim (Bool-cases (leb t.wakeup_tick tick)) [
  | inl due ↦
      let woken = record t { state = ready } in
      let r = wake-Woken tick ts (push-IsQueues woken v refl) h.1 in
      rw due (record {
        queues = r.queues;
        still = r.still;
        later = r.later;
        kept = λ x. omega (arith, r.kept x, count_all-push x qs woken (omega (arith, v.size)));
      })
  | inr early ↦
      let r = wake-Woken tick ts v h.1 in
      rw early (record {
        queues = r.queues;
        still = (h.0, r.still);
        later = (ground arith, r.later);
        kept = λ x. omega (arith, r.kept x);
      })
]
