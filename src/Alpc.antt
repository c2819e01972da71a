-- ===== src/Alpc.antt =====
-- src/kernel/alpc.c: message ports. Each call holds the lock of the list or of the port, so it is
-- one step. The shared sections of the same file are in Alpc/Sections.antt.
pub mod Sections
mod Refine
mod Ports
mod Send
mod Tests
use barium.Prelude.{
  ℕ, ◌+◌, ◌%◌, ◌^◌, Bool, true, false, Option, none, some, List, [], ◌∷◌, ◌==◌, ltb, if◌then◌else◌,
  get_or, set, replicate, length,
}
use barium.Text.{b_strcmp, b_strcpy, is_zero}
use barium.Sched.Reschedule.{sched_get_tid}
use barium.Sched.System.{System, blank_cpu, sched_handoff}

pub record Message : Type 0 where
  pub sender_tid : ℕ
  pub receiver_tid : ℕ
  pub message_type : ℕ
  pub length_field : ℕ
  pub section_id : ℕ
  pub section_offset : ℕ
  pub data_bytes : List ℕ

abbrev pub blank_message : Message
blank_message = record {
  sender_tid = 0;
  receiver_tid = 0;
  message_type = 0;
  length_field = 0;
  section_id = 0;
  section_offset = 0;
  data_bytes = replicate 128 0;
}

-- The slots of `msg_queue` are a list; a port's lock is not kept.
pub record Port : Type 0 where
  pub name : List ℕ
  pub owner_tid : ℕ
  pub server_tid : ℕ
  pub msg_queue : List Message
  pub queue_head : ℕ
  pub queue_tail : ℕ
  pub queue_size : ℕ

-- `port_list` by address, the newest first.
abbrev pub PortList : Type 0
PortList = List (ℕ × Port)

abbrev pub u32 : ℕ → ℕ
u32 n = n % 2 ^ 32

-- What 0 and -1 say.
pub data Status : Type 0 where
  ok : Status
  failed : Status

-- `address` and `slots` are what the two calls of `kmalloc` give. A name that does not fit `name`
-- runs over the fields behind it: that outcome is `none`.
pub alpc_create_port :
    (tid address : ℕ) (slots : List Message) → PortList → List ℕ → ℕ → Option (ℕ × PortList)
alpc_create_port tid address slots ports name queue_size =
    if ltb (length name) 32
    then some (
      address,
      (
        address,
        record {
          name = b_strcpy (replicate 32 0) name 0;
          owner_tid = tid;
          server_tid = tid;
          msg_queue = slots;
          queue_head = 0;
          queue_tail = 0;
          queue_size = u32 queue_size;
        },
      )
          ∷ ports,
    )
    else none

pub alpc_connect_port : PortList → List ℕ → ℕ
alpc_connect_port [] name = 0
alpc_connect_port ((address, port) ∷ ports) name =
    let later = alpc_connect_port ports name in
    if is_zero (b_strcmp port.name name) then address else later

-- The part of `alpc_send` under the lock. A `queue_size` of 0 is a division by zero: `none`.
pub put_message : Port → Message → Option (Status × Port)
put_message port msg =
    let next = (port.queue_tail + 1) % port.queue_size in
    if port.queue_size == 0
    then none
    else if next == port.queue_head
    then some (failed, port)
    else some
        (ok, record port { msg_queue = set port.msg_queue port.queue_tail msg; queue_tail = next })

-- The part of `alpc_recv` under the lock; the message is only written on success.
pub take_message : Port → Message → Option (Status × Message × Port)
take_message port msg =
    if port.queue_head == port.queue_tail
    then some (failed, msg, port)
    else if port.queue_size == 0
    then none
    else some (
      ok,
      get_or port.msg_queue port.queue_head blank_message,
      record port { queue_head = (port.queue_head + 1) % port.queue_size },
    )

-- The port at an address; an address of no port is not followed.
unfoldable pub port_at : PortList → ℕ → Option Port
port_at [] id = none
port_at ((address, port) ∷ ports) id =
    let later = port_at ports id in if address == id then some port else later

pub put_port : PortList → ℕ → Port → PortList
put_port [] id p = []
put_port ((address, port) ∷ ports) id p =
    let later = put_port ports id p in
    if address == id then (address, p) ∷ ports else (address, port) ∷ later

-- On the CPU `this`: the status, the caller's message, the ports, and the threads.
pub alpc_send : ℕ → PortList → System → ℕ → Message → Option (Status × Message × PortList × System)
alpc_send this ports sys port_id msg =
    let tid = sched_get_tid (get_or sys.cpus this blank_cpu) in
    if port_id == 0 then some (failed, msg, ports, sys) else elim (port_at ports port_id) [
      | none ↦ none
      | some port ↦
          let msg' = record msg { sender_tid = tid; receiver_tid = port.server_tid } in
          elim (put_message port msg') [
            | none ↦ none
            | some (failed, port') ↦ some (failed, msg', ports, sys)
            | some (ok, port') ↦
                some (
                  ok,
                  msg',
                  put_port ports port_id port',
                  (sched_handoff this port.server_tid sys).0,
                )
          ]
    ]

pub alpc_recv : PortList → ℕ → Message → Option (Status × Message × PortList)
alpc_recv ports port_id msg =
    if port_id == 0 then some (failed, msg, ports) else elim (port_at ports port_id) [
      | none ↦ none
      | some port ↦ elim (take_message port msg) [
        | none ↦ none
        | some (status, msg', port') ↦ some (status, msg', put_port ports port_id port')
      ]
    ]
