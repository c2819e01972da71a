-- ===== src/Alpc/Send.antt =====
-- `alpc_send`: what reaches the port, and the hand-over.
use barium.Prelude.{
  ℕ, ◌+◌, ◌≡◌, ◌≢◌, inl, inr, refl, false, Option, none, some, [], ◌∷◌, ◌++◌, ◌==◌, get_or, length,
  arith, Bool-cases,
}
use barium.Sched.Reschedule.{sched_get_tid}
use barium.Sched.System.{System, blank_cpu, sched_handoff}
use barium.Alpc.{Message, Port, PortList, Status, ok, failed, port_at, put_port, alpc_send}
use barium.Alpc.Refine.{IsPort, pending, put_message-Sends}

port_at-put_port :
    (ports : PortList) (id : ℕ) (p q : Port)
    → port_at ports id ≡ some p
    → (port_at (put_port ports id q) id ≡ some q)
      × ((other : ℕ) → other ≢ id → port_at (put_port ports id q) other ≡ port_at ports other)
unfolding port_at put_port
port_at-put_port [] id p q e = absurd (ground arith)
port_at-put_port ((address, port) ∷ ports) id p q e = elim (Bool-cases (address == id)) [
  | inl here ↦ rw here (rw here refl, λ other ne. ground arith)
  | inr behind ↦
      let later = port_at-put_port ports id p q (ground arith) in
      rw behind (rw behind later.0, λ other ne. ground (arith, later.1 other))
]

-- The message with the two thread ids that the kernel fills in.
abbrev pub stamped : ℕ → System → Port → Message → Message
stamped this sys p msg = record msg {
  sender_tid = sched_get_tid (get_or sys.cpus this blank_cpu);
  receiver_tid = p.server_tid;
}

-- A send to a port: the message waits behind the others of that port, no other port changes, and
-- the receiver is handed over to; or the port is full, and no port or thread changes.
abbrev pub Delivered :
    ℕ
    → PortList
    → System
    → ℕ
    → Port
    → Message
    → Option (Status × Message × PortList × System)
    → Type 0
Delivered this ports sys id p msg none = ⊥
Delivered this ports sys id p msg (some (ok, msg', ports', sys')) =
    (msg' ≡ stamped this sys p msg)
    × ((p' : Port) × (port_at ports' id ≡ some p')
        × IsPort p'
        × (pending p' ≡ pending p ++ (msg' ∷ [])))
    × ((other : ℕ) → other ≢ id → port_at ports' other ≡ port_at ports other)
    × (sys' ≡ (sched_handoff this p.server_tid sys).0)
Delivered this ports sys id p msg (some (failed, msg', ports', sys')) =
    (ports' ≡ ports) × (sys' ≡ sys) × (length (pending p) + 1 ≡ p.queue_size)

-- A send to a port that exists either puts the message, with the ids of its sender and of the port's
-- server, behind those that wait, leaves every other port as it was, and hands the CPU over to the
-- server; or the port holds `queue_size - 1` messages, and no port or thread changes.
pub alpc_send-Delivered :
    (this : ℕ) (ports : PortList) (sys : System) (id : ℕ) (p : Port) (msg : Message)
    → id ≢ 0
    → port_at ports id ≡ some p
    → IsPort p
    → Delivered this ports sys id p msg (alpc_send this ports sys id msg)
unfolding alpc_send
alpc_send-Delivered this ports sys id p msg ne at v =
    let valid : (id == 0) ≡ false = ground arith in
    elim (put_message-Sends p (stamped this sys p msg) v) [
      | inl (p', e, v', size, room, q) ↦
          let kept = port_at-put_port ports id p p' at in
          rw (valid, at, e) (refl, (p', kept.0, v', q), kept.1, refl)
      | inr (e, full) ↦ rw (valid, at, e) (refl, refl, full)
    ]
