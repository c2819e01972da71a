-- ===== src/Lock/Moves.antt =====
-- What each kind of step keeps.
use barium.Prelude.{
  ℕ, ◌≡◌, ◌≢◌, ◌⊎◌, inl, inr, refl, ◌∙◌, ap, sym, Bool, true, false, List, [], ◌∷◌, ◌==◌,
  Bool-cases, arith,
}
use barium.Console.{Console, console_putchar, console_print}
use barium.Lock.{Phase, idle, trying, pausing, printing, leaving, Core, Shared, put_core}
use barium.Lock.History.{printed, is_printing, is_idle, IsQuiet, IsFree, IsHeld, IsSerial}

put_core_same : (i : ℕ) (c : Core) (s : Shared) → put_core i c s i ≡ c
put_core_same i c s = ground arith

put_core_other : (i j : ℕ) (c : Core) (s : Shared) → j ≢ i → put_core i c s j ≡ s.cores j
put_core_other i j c s ne = ground arith

-- A change of one core keeps the others quiet.
pub put_core-IsQuiet :
    (i : ℕ) (c : Core) (s : Shared)
    → IsQuiet c
    → ((j : ℕ) → IsQuiet (s.cores j))
    → (j : ℕ) → IsQuiet (put_core i c s j)
put_core-IsQuiet i c s new old j = elim (Bool-cases (j == i)) [
  | inl e ↦ rw e new
  | inr e ↦ rw e (old j)
]

abbrev rest_of : Phase → List ℕ
rest_of (printing f t) = t
rest_of idle = []
rest_of (trying f t) = []
rest_of (pausing f t) = []
rest_of (leaving f) = []

pub Phase-cases : (p : Phase) → (p ≡ idle) ⊎ (is_idle p ≡ false)
Phase-cases idle = inl refl
Phase-cases (trying f t) = inr refl
Phase-cases (pausing f t) = inr refl
Phase-cases (printing f t) = inr refl
Phase-cases (leaving f) = inr refl

pub clash {ℓ} : {A : Type ℓ} → true ≡ false → A
clash e = absurd (cc)

module _ (behind : ℕ → ℕ) (c : Console) (ts : List (List ℕ)) (i : ℕ) (s : Shared) where
  -- A core that does not print before or after leaves the lock and the console alone.
  pub moved :
      (new : Core)
      → is_printing (s.cores i).phase ≡ false
      → is_printing new.phase ≡ false
      → IsFree behind c ts s ⊎ IsHeld behind c ts s
      → let s' = record s { cores = put_core i new s } in
        IsFree behind c ts s' ⊎ IsHeld behind c ts s'
  moved new before after (inl free) = inl (record {
    unlocked = free.unlocked;
    none_prints =
        λ j. elim (Bool-cases (j == i)) [ inl e ↦ rw e after | inr e ↦ rw e (free.none_prints j) ];
    shows = free.shows;
  })
  moved new before after (inr held) =
      let other : (held.holder == i) ≡ false = elim (Bool-cases (held.holder == i)) [
        | inr e ↦ e
        | inl e ↦
            let same : held.holder ≡ i = ground arith in
            clash (
              sym (ap is_printing (held.prints))
              ∙ ap (λ k. is_printing (s.cores k).phase) same
              ∙ before)
      ] in
      inr (record {
        shut = held.shut;
        holder = held.holder;
        flags = held.flags;
        rest = held.rest;
        prints = rw other (held.prints);
        alone = λ j ne. elim (Bool-cases (j == i)) [
          | inl e ↦ rw e after
          | inr e ↦ rw e (held.alone j ne)
        ];
        will_show = held.will_show;
      })

  -- The core that prints holds the lock.
  pub holds :
      (f : Bool) (rest : List ℕ)
      → (s.cores i).phase ≡ printing f rest
      → IsFree behind c ts s ⊎ IsHeld behind c ts s
      → (s.lock ≡ true)
        × ((j : ℕ) → j ≢ i → is_printing (s.cores j).phase ≡ false)
        × (console_print behind s.console rest ≡ printed behind ts c)
  holds f rest e (inl free) = clash (sym (ap is_printing e) ∙ free.none_prints i)
  holds f rest e (inr held) = elim (Bool-cases (i == held.holder)) [
    | inr other ↦ clash (sym (ap is_printing e) ∙ held.alone i (ground (arith, other)))
    | inl same ↦
        let at : i ≡ held.holder = ground (arith, same) in
        let rests : rest ≡ held.rest =
          sym (ap rest_of e) ∙ ap (λ k. rest_of (s.cores k).phase) at ∙ ap rest_of (held.prints) in
        (
          held.shut,
          λ j ne. held.alone j (λ e'. ne (e' ∙ sym at)),
          ap (console_print behind s.console) rests ∙ held.will_show,
        )
  ]

  pub goes_on :
      (p new : Phase)
      → (s.cores i).phase ≡ p
      → is_idle p ≡ false
      → ((j : ℕ) → IsQuiet (s.cores j))
      → (j : ℕ) → IsQuiet (put_core i (record (s.cores i) { phase = new }) s j)
  goes_on p new e busy quiet =
      put_core-IsQuiet i (record (s.cores i) { phase = new }) s
        (record { off = λ now. (quiet i).off (ap is_idle e ∙ busy); below = (quiet i).below }) quiet

  pub released :
      (f : Bool) (rest : List ℕ)
      → (s.cores i).phase ≡ printing f rest
      → console_print behind s.console rest ≡ s.console
      → IsSerial behind c ts s
      → IsSerial behind c ts (record s {
        cores = put_core i (record (s.cores i) { phase = leaving f }) s;
        lock = false;
      })
  released f rest e done v =
      let (shut, alone, will_show) = holds f rest e v.state in
      record {
        quiet = goes_on (printing f rest) (leaving f) e refl v.quiet;
        state = inl (record {
          unlocked = refl;
          none_prints = λ j. elim (Bool-cases (j == i)) [
            | inl same ↦ rw same refl
            | inr other ↦ rw other (alone j (ground (arith, other)))
          ];
          shows = sym done ∙ will_show;
        });
      }

  -- A core that tries finds the lock free, and prints its whole text then.
  pub takes :
      (f : Bool) (t : List ℕ)
      → (s.cores i).phase ≡ trying f t
      → s.lock ≡ false
      → IsSerial behind c ts s
      → IsSerial behind c (t ∷ ts) (record s {
        cores = put_core i (record (s.cores i) { phase = printing f t }) s;
        lock = true;
      })
  takes f t e open_now v = record {
    quiet = goes_on (trying f t) (printing f t) e refl v.quiet;
    state = elim v.state [
      | inr held ↦ clash (sym (held.shut) ∙ open_now)
      | inl free ↦ inr (record {
        shut = refl;
        holder = i;
        flags = f;
        rest = t;
        prints =
            ap (λ k. k.phase) (put_core_same i (record (s.cores i) { phase = printing f t }) s);
        alone =
            λ j ne. let other : (j == i) ≡ false = ground arith in rw other (free.none_prints j);
        will_show = unfold printed in ap (λ x. console_print behind x t) (free.shows);
      })
    ];
  }

  pub puts :
      (f : Bool) (x : ℕ) (xs : List ℕ)
      → (s.cores i).phase ≡ printing f (x ∷ xs)
      → (x == 0) ≡ false
      → IsSerial behind c ts s
      → IsSerial behind c ts (record s {
        cores = put_core i (record (s.cores i) { phase = printing f xs }) s;
        console = console_putchar behind s.console x 0xFFFFFF;
      })
  unfolding console_print
  puts f x xs e shown v =
      let (shut, alone, will_show) = holds f (x ∷ xs) e v.state in
      record {
        quiet = goes_on (printing f (x ∷ xs)) (printing f xs) e refl v.quiet;
        state = inr (record {
          shut = shut;
          holder = i;
          flags = f;
          rest = xs;
          prints =
              ap (λ k. k.phase) (put_core_same i (record (s.cores i) { phase = printing f xs }) s);
          alone = λ j ne. let other : (j == i) ≡ false = ground arith in rw other (alone j ne);
          will_show = rw shown at will_show;
        });
      }
