-- ===== src/Lock/Tests.antt =====
-- Two cores that print at once.
use barium.Prelude.{◌≡◌, inr, refl, true, List, [], ◌∷◌}
use barium.Console.{Console}
use barium.Lock.{
  pausing, printing, Action, call, go, interrupt, iret, run, step, begin, advance, test_and_set,
  look, enter, return_to, fresh,
}
use barium.Lock.History.{history, taken, noted, IsSerial}
use barium.Lock.Serial.{run-IsSerial}
use barium.Lock.Progress.{run-Gets}

abbrev screen : Console
screen = record {
  framebuffer = λ i. 0;
  width = 640;
  height = 480;
  stride = 640;
  cursor_x = 10;
  cursor_y = 10;
}

-- Core 1 begins first, core 0 takes the lock first, an interrupt comes to core 2, and core 1 waits.
abbrev both : List Action
both =
    call 1 (98 ∷ []) ∷ call 0 (97 ∷ 99 ∷ []) ∷ go 0 ∷ interrupt 2 ∷ go 1 ∷ go 0 ∷ go 1 ∷ iret 2 ∷ []

one_inside : ((run (λ i. 0) both (fresh screen)).cores 0).phase ≡ printing true (99 ∷ [])
unfolding run step begin advance test_and_set look enter return_to
one_inside = refl

one_waits : ((run (λ i. 0) both (fresh screen)).cores 1).phase ≡ pausing true (98 ∷ [])
unfolding run step begin advance test_and_set look enter return_to
one_waits = refl

order : history (λ i. 0) both (fresh screen) [] ≡ (97 ∷ 99 ∷ []) ∷ []
unfolding run step begin advance test_and_set look enter return_to history noted taken
order = refl

run-IsSerial_example :
    IsSerial
      (λ i. 0)
      screen
      (history (λ i. 0) both (fresh screen) [])
      (run (λ i. 0) both (fresh screen))
run-IsSerial_example = run-IsSerial (λ i. 0) screen both

run-Gets_example :
    (actions : List Action) × (((run (λ i. 0) actions (run (λ i. 0) both (fresh screen))).cores
        1).phase
      ≡ printing true (98 ∷ []))
run-Gets_example = run-Gets (λ i. 0) screen both 1 true (98 ∷ []) (inr one_waits)
