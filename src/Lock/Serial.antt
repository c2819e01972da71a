-- ===== src/Lock/Serial.antt =====
-- The prints of all cores come out one after the other.
use barium.Prelude.{
  ℕ, ◌≡◌, inl, inr, refl, ◌∙◌, ap, sym, Bool, true, false, List, [], ◌∷◌, ◌==◌, All, Bool-cases,
}
use barium.Console.{Console, console_print}
use barium.Lock.{
  Phase, idle, trying, pausing, printing, leaving, Core, Shared, test_and_set, look, advance,
  Action, call, go, interrupt, iret, begin, enter, return_to, step, run, fresh,
}
use barium.Lock.History.{printed, taken, noted, history, is_printing, is_idle, IsQuiet, IsSerial}
use barium.Lock.Moves.{clash, Phase-cases, put_core-IsQuiet, moved, goes_on, released, takes, puts}

module _ (behind : ℕ → ℕ) (c : Console) where
  test_and_set-IsSerial :
      (ts : List (List ℕ)) (i : ℕ) (f : Bool) (t : List ℕ) (b : Bool) (s : Shared)
      → (s.cores i).phase ≡ trying f t
      → s.lock ≡ b
      → IsSerial behind c ts s
      → IsSerial behind c (taken (trying f t) b ts) (test_and_set i f t b s)
  unfolding test_and_set taken
  test_and_set-IsSerial ts i f t true s e shut v = record {
    quiet = goes_on behind c ts i s (trying f t) (pausing f t) e refl v.quiet;
    state =
        moved behind c ts i s (record (s.cores i) { phase = pausing f t }) (ap is_printing e) refl
          v.state;
  }
  test_and_set-IsSerial ts i f t false s e free v = takes behind c ts i s f t e free v

  look-IsSerial :
      (ts : List (List ℕ)) (i : ℕ) (f : Bool) (t : List ℕ) (b : Bool) (s : Shared)
      → (s.cores i).phase ≡ pausing f t
      → s.lock ≡ b
      → IsSerial behind c ts s
      → IsSerial behind c ts (look i f t b s)
  unfolding look
  look-IsSerial ts i f t true s e shut v = v
  look-IsSerial ts i f t false s e free v = record {
    quiet = goes_on behind c ts i s (pausing f t) (trying f t) e refl v.quiet;
    state =
        moved behind c ts i s (record (s.cores i) { phase = trying f t }) (ap is_printing e) refl
          v.state;
  }

  advance-IsSerial :
      (ts : List (List ℕ)) (i : ℕ) (p : Phase) (s : Shared)
      → (s.cores i).phase ≡ p
      → IsSerial behind c ts s
      → IsSerial behind c (taken p s.lock ts) (advance behind i p s)
  unfolding advance taken
  advance-IsSerial ts i idle s e v = v
  advance-IsSerial ts i (trying f t) s e v = test_and_set-IsSerial ts i f t s.lock s e refl v
  advance-IsSerial ts i (pausing f t) s e v = look-IsSerial ts i f t s.lock s e refl v
  advance-IsSerial ts i (printing f []) s e v =
      released behind c ts i s f [] e (unfold console_print in refl) v
  advance-IsSerial ts i (printing f (x ∷ xs)) s e v = elim (Bool-cases (x == 0)) [
    | inl end ↦
        rw end (released behind c ts i s f (x ∷ xs) e (unfold console_print in rw end refl) v)
    | inr shown ↦ rw shown (puts behind c ts i s f x xs e shown v)
  ]
  advance-IsSerial ts i (leaving f) s e v = record {
    quiet =
        put_core-IsQuiet i (record (s.cores i) { phase = idle; enabled = f }) s
          (record { off = λ now. clash now; below = (v.quiet i).below }) v.quiet;
    state =
        moved behind c ts i s (record (s.cores i) { phase = idle; enabled = f }) (ap is_printing e)
          refl v.state;
  }

  begin-IsSerial :
      (ts : List (List ℕ)) (i : ℕ) (t : List ℕ) (p : Phase) (s : Shared)
      → (s.cores i).phase ≡ p
      → IsSerial behind c ts s
      → IsSerial behind c ts (begin i t p s)
  unfolding begin
  begin-IsSerial ts i t idle s e v =
      let new = record (s.cores i) { phase = trying (s.cores i).enabled t; enabled = false } in
      record {
        quiet =
            put_core-IsQuiet i new s (record { off = λ now. refl; below = (v.quiet i).below })
              v.quiet;
        state = moved behind c ts i s new (ap is_printing e) refl v.state;
      }
  begin-IsSerial ts i t (trying f u) s e v = v
  begin-IsSerial ts i t (pausing f u) s e v = v
  begin-IsSerial ts i t (printing f u) s e v = v
  begin-IsSerial ts i t (leaving f) s e v = v

  -- An interrupt finds a core that is in no call.
  interrupted_idle : (k : Core) → IsQuiet k → k.enabled ≡ true → k.phase ≡ idle
  interrupted_idle k q on = elim (Phase-cases k.phase) [
    | inl e ↦ e
    | inr busy ↦ clash (sym on ∙ q.off busy)
  ]

  enter-IsSerial :
      (ts : List (List ℕ)) (i : ℕ) (s : Shared)
      → IsSerial behind c ts s
      → IsSerial behind c ts (enter i s)
  unfolding enter
  enter-IsSerial ts i s v = elim (Bool-cases (s.cores i).enabled) [
    | inr off ↦ rw off v
    | inl on ↦
        let e = interrupted_idle (s.cores i) (v.quiet i) on in
        let new : Core = record {
          enabled = false;
          phase = idle;
          suspended = (s.cores i).phase ∷ (s.cores i).suspended;
        } in
        rw on (record {
          quiet =
              put_core-IsQuiet i new s
                (record { off = λ now. refl; below = (e, (v.quiet i).below) }) v.quiet;
          state = moved behind c ts i s new (ap is_printing e) refl v.state;
        })
  ]

  return_to-IsSerial :
      (ts : List (List ℕ)) (i : ℕ) (p : Phase) (ps : List Phase) (s : Shared)
      → (s.cores i).phase ≡ p
      → All (λ q. q ≡ idle) ps
      → IsSerial behind c ts s
      → IsSerial behind c ts (return_to i p ps s)
  unfolding return_to
  return_to-IsSerial ts i idle [] s e below v = v
  return_to-IsSerial ts i idle (q ∷ qs) s e below v =
      let new : Core = record { enabled = true; phase = q; suspended = qs } in
      record {
        quiet =
            put_core-IsQuiet i new s
              (record { off = λ busy. clash (sym (ap is_idle below.0) ∙ busy); below = below.1 })
              v.quiet;
        state = moved behind c ts i s new (ap is_printing e) (ap is_printing below.0) v.state;
      }
  return_to-IsSerial ts i (trying f t) ps s e below v = v
  return_to-IsSerial ts i (pausing f t) ps s e below v = v
  return_to-IsSerial ts i (printing f t) ps s e below v = v
  return_to-IsSerial ts i (leaving f) ps s e below v = v

  step-IsSerial :
      (a : Action) (ts : List (List ℕ)) (s : Shared)
      → IsSerial behind c ts s
      → IsSerial behind c (noted a s ts) (step behind a s)
  unfolding step noted
  step-IsSerial (call i t) ts s v = begin-IsSerial ts i t (s.cores i).phase s refl v
  step-IsSerial (go i) ts s v = advance-IsSerial ts i (s.cores i).phase s refl v
  step-IsSerial (interrupt i) ts s v = enter-IsSerial ts i s v
  step-IsSerial (iret i) ts s v =
      return_to-IsSerial ts i (s.cores i).phase (s.cores i).suspended s refl (v.quiet i).below v

  pub all-IsSerial :
      (actions : List Action) (ts : List (List ℕ)) (s : Shared)
      → IsSerial behind c ts s
      → IsSerial behind c (history behind actions s ts) (run behind actions s)
  unfolding run history
  all-IsSerial [] ts s v = v
  all-IsSerial (a ∷ others) ts s v =
      all-IsSerial others (noted a s ts) (step behind a s) (step-IsSerial a ts s v)

  fresh-IsSerial : IsSerial behind c [] (fresh c)
  unfolding printed
  fresh-IsSerial = record {
    quiet = λ j. record { off = λ busy. clash busy; below = tt };
    state = inl (record { unlocked = refl; none_prints = λ j. refl; shows = refl });
  }

-- However the steps of the cores follow each other, and wherever interrupts come: the prints come out
-- one after the other, in the order in which they took the lock. While no core holds the lock the
-- console shows these texts; while one does it is the only one that prints, and the console shows them
-- once it has printed the rest of its own. A core in a call takes no interrupt, so that an interrupt
-- never puts off a core that has the lock or waits for it.
pub run-IsSerial :
    (behind : ℕ → ℕ) (c : Console) (actions : List Action)
    → IsSerial behind c (history behind actions (fresh c) []) (run behind actions (fresh c))
run-IsSerial behind c actions = all-IsSerial behind c actions [] (fresh c) (fresh-IsSerial behind c)
