-- ===== src/Idt/Handler.antt =====
-- `interrupt_handler` of src/kernel/idt.c with `apic_timer_handler` of src/kernel/apic.c, over the
-- parts of the kernel that it calls.
use barium.Prelude.{
  ℕ, ◌+◌, ◌/◌, ◌*◌, ◌%◌, ◌^◌, Bool, ◌&&◌, ◌||◌, List, [], ◌∷◌, ◌++◌, map, ◌==◌, ltb, leb,
  if◌then◌else◌,
}
use barium.Sched.Thread.{Cpu}
use barium.Sched.Reschedule.{sched_reschedule, sched_exit}
use barium.Keyboard.{Keyboard, keyboard_handler}
use barium.Vmm.{Vmm, vmm_map, vmm_get_phys}

-- The state that the handler reaches on its CPU: `global_ticks`, the CPU, the keyboard's buffer,
-- memory with the page tables, their root `kernel_pml4`, and `vmm_test_active`.
pub record Machine : Type 0 where
  pub ticks : ℕ
  pub cpu : Cpu
  pub keyboard : Keyboard
  pub vmm : Vmm
  pub pml4 : ℕ
  pub vmm_test_active : Bool

-- The fields of `context_t` that the handler reads, the stack pointer where it stands, and what the
-- hardware answers: the keyboard's byte and the address of a page fault.
pub record Trap : Type 0 where
  pub int_no : ℕ
  pub err_code : ℕ
  pub rip : ℕ
  pub cs : ℕ
  pub rsp : ℕ
  pub scancode : ℕ
  pub cr2 : ℕ

-- What the handler prints: the line of vectors 3 and 4, the two lines that name an exception of a
-- user thread and where it was, and the line of an exception of the kernel.
pub data Line : Type 0 where
  diag : Line
  user_exception : (int_no rip : ℕ) → Line
  kernel_exception : (int_no err_code rip : ℕ) → Line

-- What the handler does outside the state, in order.
pub data Effect : Type 0 where
  outb : (port value : ℕ) → Effect
  apic_write : (reg value : ℕ) → Effect
  frees : ℕ → Effect
  print : Line → Effect

-- The handler returns a stack pointer; or it waits in `sched_exit` with interrupts on; or it halts
-- with interrupts off.
pub data Handled : Type 0 where
  returns : (rsp : ℕ) → Machine → List Effect → Handled
  waits : Machine → List Effect → Handled
  halts : Machine → List Effect → Handled

-- The end of the handler: the acknowledgement of the interrupt controllers.
unfoldable pub pic_eoi : ℕ → List Effect
pic_eoi int_no =
    if leb 32 int_no && leb int_no 47
    then (if leb 40 int_no then outb 0xA0 0x20 ∷ outb 0x20 0x20 ∷ [] else outb 0x20 0x20 ∷ [])
    else []

unfoldable pub apic_timer_handler : Machine → Machine
apic_timer_handler m = record m { ticks = (m.ticks + 1) % 2 ^ 64 }

-- The branches of the handler: the timer, and the page fault of the test of page tables.
unfoldable pub timer : Machine → (rsp int_no : ℕ) → Handled
timer m rsp int_no =
    let m' = apic_timer_handler m in
    let switch = sched_reschedule m'.ticks m'.cpu rsp in
    returns switch.rsp (record m' { cpu = switch.cpu })
      (apic_write 0xB0 0 ∷ map frees switch.freed ++ pic_eoi int_no)

unfoldable pub page_fault : Machine → (rsp fault_addr : ℕ) → Handled
page_fault m rsp fault_addr =
    let phys = vmm_get_phys m.vmm.words m.pml4 fault_addr in
    returns rsp (record m { vmm = vmm_map m.vmm m.pml4 (fault_addr / 4096 * 4096) phys 3 }) []

unfoldable pub exception : Machine → (int_no : ℕ) → Trap → Handled
exception m int_no t =
    if t.cs % 4 == 3
    then waits (record m { cpu = sched_exit m.cpu }) (print (user_exception int_no t.rip) ∷ [])
    else halts m (print (kernel_exception int_no t.err_code t.rip) ∷ [])

unfoldable pub interrupt_handler : Machine → Trap → Handled
interrupt_handler m t =
    let int_no = t.int_no % 256 in
    if int_no == 0x20
    then timer m t.rsp int_no
    else if int_no == 0x21
    then returns t.rsp (record m { keyboard = keyboard_handler m.keyboard t.scancode })
        (pic_eoi int_no)
    else if int_no == 3 || int_no == 4
    then returns t.rsp m (print diag ∷ pic_eoi int_no)
    else if int_no == 14 && m.vmm_test_active
    then page_fault m t.rsp t.cr2
    else if ltb int_no 32
    then exception m int_no t
    else returns t.rsp m (pic_eoi int_no)
