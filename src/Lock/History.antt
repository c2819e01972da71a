-- ===== src/Lock/History.antt =====
-- What the console is to show, and the invariant of the lock.
use barium.Prelude.{ℕ, ◌≡◌, ◌≢◌, ◌⊎◌, Bool, true, false, List, [], ◌∷◌, All}
use barium.Console.{Console, console_print}
use barium.Lock.{
  Phase, idle, trying, pausing, printing, leaving, Core, Shared, Action, call, go, interrupt, iret,
  step,
}

-- Printing whole texts, of which the last is the first of the list.
unfoldable pub printed : (ℕ → ℕ) → List (List ℕ) → Console → Console
printed behind [] c = c
printed behind (t ∷ ts) c = console_print behind (printed behind ts c) t

-- The texts in the order in which their calls took the lock, the last one first.
unfoldable pub taken : Phase → Bool → List (List ℕ) → List (List ℕ)
taken (trying f t) false ts = t ∷ ts
taken (trying f t) true ts = ts
taken idle b ts = ts
taken (pausing f t) b ts = ts
taken (printing f t) b ts = ts
taken (leaving f) b ts = ts

unfoldable pub noted : Action → Shared → List (List ℕ) → List (List ℕ)
noted (go i) s ts = taken (s.cores i).phase s.lock ts
noted (call i t) s ts = ts
noted (interrupt i) s ts = ts
noted (iret i) s ts = ts

unfoldable pub history : (ℕ → ℕ) → List Action → Shared → List (List ℕ) → List (List ℕ)
history behind [] s ts = ts
history behind (a ∷ others) s ts = history behind others (step behind a s) (noted a s ts)

abbrev pub is_printing : Phase → Bool
is_printing (printing f t) = true
is_printing idle = false
is_printing (trying f t) = false
is_printing (pausing f t) = false
is_printing (leaving f) = false

abbrev pub is_idle : Phase → Bool
is_idle idle = true
is_idle (printing f t) = false
is_idle (trying f t) = false
is_idle (pausing f t) = false
is_idle (leaving f) = false

-- A core in a call has interrupts off, and what interrupts put off is no call.
pub record IsQuiet (c : Core) : Type 0 where
  pub off : is_idle c.phase ≡ false → c.enabled ≡ false
  pub below : All (λ p. p ≡ idle) c.suspended

-- Nobody holds the lock, and the console shows the texts.
pub record IsFree (behind : ℕ → ℕ) (c : Console) (ts : List (List ℕ)) (s : Shared) : Type 0 where
  pub unlocked : s.lock ≡ false
  pub none_prints : (j : ℕ) → is_printing (s.cores j).phase ≡ false
  pub shows : s.console ≡ printed behind ts c

-- One core holds it, and once it has printed its rest the console shows the texts.
pub record IsHeld (behind : ℕ → ℕ) (c : Console) (ts : List (List ℕ)) (s : Shared) : Type 0 where
  pub shut : s.lock ≡ true
  pub holder : ℕ
  pub flags : Bool
  pub rest : List ℕ
  pub prints : (s.cores holder).phase ≡ printing flags rest
  pub alone : (j : ℕ) → j ≢ holder → is_printing (s.cores j).phase ≡ false
  pub will_show : console_print behind s.console rest ≡ printed behind ts c

pub record IsSerial (behind : ℕ → ℕ) (c : Console) (ts : List (List ℕ)) (s : Shared) : Type 0 where
  pub quiet : (j : ℕ) → IsQuiet (s.cores j)
  pub state : IsFree behind c ts s ⊎ IsHeld behind c ts s
