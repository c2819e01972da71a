-- ===== src/Alpc/Refine.antt =====
-- A port is a queue of at most `queue_size - 1` messages.
use barium.Prelude.{
  ℕ, ◌+◌, ◌≤◌, ◌<◌, ◌≡◌, ◌⊎◌, inl, inr, refl, ap₂, ◌∙◌, true, false, Option, none, some, List, [],
  ◌∷◌, ◌++◌, ◌==◌, ltb, if◌then◌else◌, get_or, set, length, length-set, arith, Bool-cases,
}
use barium.Prelude.Window.{
  next_index, next-eq-mod, next-lt, contents, contents-write, contents-read, contents_empty,
  contents_full, contents_room,
}
use barium.Alpc.{Message, Port, Status, ok, failed, blank_message, put_message, take_message}

-- The indices stay inside the buffer.
pub record IsPort (p : Port) : Type 0 where
  pub some_slot : 0 < p.queue_size
  pub slots : p.queue_size ≤ length p.msg_queue
  pub head_in : p.queue_head < p.queue_size
  pub tail_in : p.queue_tail < p.queue_size

-- The messages that wait, oldest first.
abbrev pub pending : Port → List Message
pending p = contents blank_message p.msg_queue p.queue_size p.queue_head p.queue_tail

-- The calls on one port over time, and what each of them reports.
pub data PortEvent : Type 0 where
  send : Message → PortEvent
  receive : PortEvent

pub data Reply : Type 0 where
  sent : Reply
  refused : Reply
  got : Message → Reply
  empty : Reply

abbrev cons_reply : Reply → Option (List Reply) → Option (List Reply)
cons_reply r none = none
cons_reply r (some rs) = some (r ∷ rs)

abbrev answer : Status → Message → Reply
answer ok m = got m
answer failed m = empty

abbrev verdict : Status → Reply
verdict ok = sent
verdict failed = refused

unfoldable pub run_port : Port → List PortEvent → Option (List Reply)
run_port p [] = some []
run_port p (send m ∷ es) = elim (put_message p m) [
  | none ↦ none
  | some (st, p') ↦ cons_reply (verdict st) (run_port p' es)
]
run_port p (receive ∷ es) = elim (take_message p blank_message) [
  | none ↦ none
  | some (st, m, p') ↦ cons_reply (answer st m) (run_port p' es)
]

-- The specification: a queue of fewer than `n` messages, which refuses what does not fit.
unfoldable pub fifo : ℕ → List Message → List PortEvent → List Reply
fifo n q [] = []
fifo n q (send m ∷ es) =
    let queued = fifo n (q ++ (m ∷ [])) es in
    let same = fifo n q es in if ltb (length q + 1) n then sent ∷ queued else refused ∷ same
fifo n [] (receive ∷ es) = empty ∷ fifo n [] es
fifo n (m ∷ q) (receive ∷ es) = got m ∷ fifo n q es

-- A send appends the message, or is refused by a full port.
abbrev pub Sends : Port → Message → Type 0
Sends p m =
    ((p' : Port) × (put_message p m ≡ some (ok, p'))
      × IsPort p'
      × (p'.queue_size ≡ p.queue_size)
      × (length (pending p) + 1 < p.queue_size)
      × (pending p' ≡ pending p ++ (m ∷ [])))
    ⊎ ((put_message p m ≡ some (failed, p)) × (length (pending p) + 1 ≡ p.queue_size))

pub put_message-Sends : (p : Port) (m : Message) → IsPort p → Sends p m
unfolding put_message
put_message-Sends p m v =
    let next = next-eq-mod p.queue_size p.queue_tail v.tail_in in
    let some_slot : (p.queue_size == 0) ≡ false = ground (arith, v.some_slot) in
    elim (Bool-cases (next_index p.queue_size p.queue_tail == p.queue_head)) [
      | inl full ↦ inr (
        rw (next, some_slot, full) refl,
        contents_full blank_message p.msg_queue p.queue_size p.queue_head p.queue_tail v.head_in
            v.tail_in (ground arith),
      )
      | inr room ↦
          let n = next_index p.queue_size p.queue_tail in
          let p' : Port = record p { msg_queue = set p.msg_queue p.queue_tail m; queue_tail = n } in
          inl (
            p',
            rw (next, some_slot, room) refl,
            record {
              some_slot = v.some_slot;
              slots = omega (arith, v.slots, length-set p.msg_queue p.queue_tail m);
              head_in = v.head_in;
              tail_in = next-lt p.queue_size p.queue_tail v.tail_in;
            },
            refl,
            contents_room blank_message p.msg_queue p.queue_size p.queue_head p.queue_tail v.head_in
                v.tail_in (ground arith),
            contents-write blank_message p.msg_queue p.queue_size p.queue_head p.queue_tail m
                v.slots v.head_in v.tail_in (ground arith),
          )
    ]

-- A receive takes the oldest message, or finds none.
abbrev Takes : Port → Message → Type 0
Takes p m =
    ((p' : Port) × (x : Message) × (take_message p m ≡ some (ok, x, p'))
      × IsPort p'
      × (p'.queue_size ≡ p.queue_size)
      × (pending p ≡ x ∷ pending p'))
    ⊎ ((take_message p m ≡ some (failed, m, p)) × (pending p ≡ []))

take_message-Takes : (p : Port) (m : Message) → IsPort p → Takes p m
unfolding take_message
take_message-Takes p m v =
    let next = next-eq-mod p.queue_size p.queue_head v.head_in in
    let some_slot : (p.queue_size == 0) ≡ false = ground (arith, v.some_slot) in
    elim (Bool-cases (p.queue_head == p.queue_tail)) [
      | inl none_waits ↦
          let e : p.queue_head ≡ p.queue_tail = ground arith in
          inr (
            rw none_waits refl,
            rw e (contents_empty blank_message p.msg_queue p.queue_size p.queue_tail),
          )
      | inr waits ↦
          let p' : Port = record p { queue_head = next_index p.queue_size p.queue_head } in
          inl (
            p',
            get_or p.msg_queue p.queue_head blank_message,
            rw (waits, some_slot, next) refl,
            record {
              some_slot = v.some_slot;
              slots = v.slots;
              head_in = next-lt p.queue_size p.queue_head v.head_in;
              tail_in = v.tail_in;
            },
            refl,
            contents-read blank_message p.msg_queue p.queue_size p.queue_head p.queue_tail v.head_in
                v.tail_in (ground arith),
          )
    ]

-- For every sequence of sends and receives on a port with at least one slot, no call divides by
-- zero, and the calls report what a queue of at most `queue_size - 1` messages reports: messages
-- come in the order sent, a send is refused when that many wait, a receive fails when none does.
pub run_port-fifo :
    (es : List PortEvent) (p : Port)
    → IsPort p
    → run_port p es ≡ some (fifo p.queue_size (pending p) es)
unfolding run_port fifo
run_port-fifo [] p v = refl
run_port-fifo (send m ∷ es) p v = elim (put_message-Sends p m v) [
  | inl (p', e, v', size, room, q) ↦
      let later = run_port-fifo es p' v' ∙ ap₂ (λ n q. some (fifo n q es)) size q in
      let fits : ltb (length (pending p) + 1) p.queue_size ≡ true = ground arith in
      rw (run_port, e, later, fits) refl
  | inr (e, full) ↦
      let later = run_port-fifo es p v in
      let over : ltb (length (pending p) + 1) p.queue_size ≡ false = ground arith in
      rw (run_port, e, later, over) refl
]
run_port-fifo (receive ∷ es) p v = elim (take_message-Takes p blank_message v) [
  | inl (p', x, e, v', size, q) ↦
      let later = run_port-fifo es p' v' ∙ ap₂ (λ n q. some (fifo n q es)) size refl in
      rw (run_port, e, q, later) refl
  | inr (e, q) ↦ let later = run_port-fifo es p v in rw (run_port, e, later, q) refl
]
