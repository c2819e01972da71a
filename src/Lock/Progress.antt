-- ===== src/Lock/Progress.antt =====
-- A core that waits for the lock can always get it.
use barium.Prelude.{
  ℕ, ◌≡◌, ◌≢◌, ◌⊎◌, inl, inr, refl, ◌∙◌, ap, sym, Bool, true, false, List, [], ◌∷◌, ◌++◌, ◌==◌,
  Bool-cases, arith,
}
use barium.Console.{Console, console_putchar}
use barium.Lock.{
  Phase, trying, pausing, printing, Shared, put_core, test_and_set, look, advance, Action, go, step,
  run, fresh,
}
use barium.Lock.History.{is_printing, IsSerial, history}
use barium.Lock.Moves.{clash}
use barium.Lock.Serial.{run-IsSerial}

run_one :
    (behind : ℕ → ℕ) (a : Action) (others : List Action) (s : Shared) {s' : Shared}
    → step behind a s ≡ s'
    → run behind (a ∷ others) s ≡ run behind others s'
unfolding run
run_one behind a others s e = ap (run behind others) e

run-append :
    (behind : ℕ → ℕ) (xs ys : List Action) (s : Shared)
    → run behind (xs ++ ys) s ≡ run behind ys (run behind xs s)
unfolding run
run-append behind [] ys s = refl
run-append behind (x ∷ xs) ys s = run-append behind xs ys (step behind x s)

-- Some steps free the lock, and change no core but `h`.
abbrev Frees : (ℕ → ℕ) → ℕ → Shared → Type 0
Frees behind h s =
    (actions : List Action) × ((run behind actions s).lock ≡ false)
    × ((j : ℕ) → j ≢ h → (run behind actions s).cores j ≡ s.cores j)

run-Frees :
    (behind : ℕ → ℕ) (h : ℕ) (f : Bool) (rest : List ℕ) (s : Shared)
    → (s.cores h).phase ≡ printing f rest
    → Frees behind h s
unfolding run step advance
run-Frees behind h f [] s e = (
  go h ∷ [],
  rw e refl,
  λ j ne. let other : (j == h) ≡ false = ground arith in rw (e, other) refl,
)
run-Frees behind h f (x ∷ xs) s e = elim (Bool-cases (x == 0)) [
  | inl end ↦ (
    go h ∷ [],
    rw (e, end) refl,
    λ j ne. let other : (j == h) ≡ false = ground arith in rw (e, end, other) refl,
  )
  | inr shown ↦
      let s' : Shared = record s {
        cores = put_core h (record (s.cores h) { phase = printing f xs }) s;
        console = console_putchar behind s.console x 0xFFFFFF;
      } in
      let here : (h == h) ≡ true = ground arith in
      let one : step behind (go h) s ≡ s' = rw (e, shown) refl in
      let (actions, free, same) = run-Frees behind h f xs s' (rw here refl) in
      (
        go h ∷ actions,
        ap (λ r. r.lock) (run_one behind (go h) actions s one) ∙ free,
        λ j ne.
            let other : (j == h) ≡ false = ground arith in
            ap (λ r. r.cores j) (run_one behind (go h) actions s one) ∙ same j ne ∙ rw other refl,
      )
]

-- The steps at whose end a core prints a text from its beginning.
abbrev Gets : (ℕ → ℕ) → (i : ℕ) (flags : Bool) (text : List ℕ) → Shared → Type 0
Gets behind i f t s =
    (actions : List Action) × (((run behind actions s).cores i).phase ≡ printing f t)

trying-Gets :
    (behind : ℕ → ℕ) (i : ℕ) (f : Bool) (t : List ℕ) (s : Shared)
    → (s.cores i).phase ≡ trying f t
    → s.lock ≡ false
    → Gets behind i f t s
unfolding run step advance test_and_set
trying-Gets behind i f t s e free =
    let here : (i == i) ≡ true = ground arith in (go i ∷ [], rw (e, free, here) refl)

pausing-Gets :
    (behind : ℕ → ℕ) (i : ℕ) (f : Bool) (t : List ℕ) (s : Shared)
    → (s.cores i).phase ≡ pausing f t
    → s.lock ≡ false
    → Gets behind i f t s
unfolding step advance look
pausing-Gets behind i f t s e free =
    let here : (i == i) ≡ true = ground arith in
    let s' : Shared = record s {
      cores = put_core i (record (s.cores i) { phase = trying f t }) s;
    } in
    let one : step behind (go i) s ≡ s' = rw (e, free) refl in
    let (actions, at) = trying-Gets behind i f t s' (rw here refl) free in
    (go i ∷ actions, ap (λ r. (r.cores i).phase) (run_one behind (go i) actions s one) ∙ at)

abbrev pub Waits : (flags : Bool) (text : List ℕ) → Phase → Type 0
Waits f t p = (p ≡ trying f t) ⊎ (p ≡ pausing f t)

not_printing : (f : Bool) (t : List ℕ) (p : Phase) → Waits f t p → is_printing p ≡ false
not_printing f t p (inl e) = ap is_printing e
not_printing f t p (inr e) = ap is_printing e

Waits-Gets :
    (behind : ℕ → ℕ) (i : ℕ) (f : Bool) (t : List ℕ) (s : Shared)
    → Waits f t (s.cores i).phase
    → s.lock ≡ false
    → Gets behind i f t s
Waits-Gets behind i f t s (inl e) free = trying-Gets behind i f t s e free
Waits-Gets behind i f t s (inr e) free = pausing-Gets behind i f t s e free

serial-Gets :
    (behind : ℕ → ℕ) (c : Console) (ts : List (List ℕ)) (i : ℕ) (f : Bool) (t : List ℕ) (s : Shared)
    → IsSerial behind c ts s
    → Waits f t (s.cores i).phase
    → Gets behind i f t s
serial-Gets behind c ts i f t s v waits = elim v.state [
  | inl free ↦ Waits-Gets behind i f t s waits (free.unlocked)
  | inr held ↦
      let (actions, free, same) = run-Frees behind held.holder held.flags held.rest s held.prints in
      let other : i ≢ held.holder = λ e. clash (
        sym (ap is_printing held.prints)
        ∙ ap (λ k. is_printing (s.cores k).phase) (sym e)
        ∙ not_printing f t (s.cores i).phase waits) in
      let kept = ap (λ k. k.phase) (same i other) in
      let (more, at) = Waits-Gets behind i f t (run behind actions s) (rw kept waits) free in
      (actions ++ more, ap (λ r. (r.cores i).phase) (run-append behind actions more s) ∙ at)
]

-- However the cores came to where they are, a core that waits for the lock can still get it: there are
-- steps, of the core that holds it and then its own, behind which it prints its text.
pub run-Gets :
    (behind : ℕ → ℕ) (c : Console) (past : List Action) (i : ℕ) (f : Bool) (t : List ℕ)
    → let s = run behind past (fresh c) in
      Waits f t (s.cores i).phase
      → (actions : List Action) × (((run behind actions s).cores i).phase ≡ printing f t)
run-Gets behind c past i f t waits =
    serial-Gets behind c (history behind past (fresh c) []) i f t (run behind past (fresh c))
      (run-IsSerial behind c past) waits
