-- ===== src/Lib.antt =====
-- The Barium kernel, a minimal x86_64 UEFI kernel written in C: a model of its parts, and what holds
-- of them. Numbers are the native naturals; a machine word keeps its wrap-around, written `% 2 ^ w`.
--
-- Keyboard.antt (src/kernel/keyboard.c): the interrupt handler puts characters into a circular buffer
-- of 128 bytes, and keyboard_get_char takes them out. keyboard_init has its accesses to the ports as a
-- list; what the controller answers is an argument. Keyboard/Invariant.antt has the invariant of the
-- indices, Keyboard/Refine.antt the queue that the buffer implements.
--
-- Heap.antt (src/kernel/heap.c): the list of block headers in memory, heap_init, kmalloc and kfree.
-- The memory of the model gives the header that stands at an address. Loops take fuel; the theorems
-- give a bound, one round for each block and one more. Heap/Layout.antt has the abstract heap, a list
-- of blocks; Heap/Chain.antt says when a memory holds such a list; Heap/Malloc.antt and Heap/Free.antt
-- prove that the code does on memory what the abstract operations do on lists; Heap/Payload.antt and
-- Heap/Coalesced.antt are about the abstract operations, and Heap/Contract.antt puts them together.
--
-- Sched.antt (src/kernel/sched.c): Sched/Thread.antt has thread_t and the queues of a CPU as lists of
-- threads; Sched/Reschedule.antt has sched_reschedule with the waking of sleepers and
-- sched_age_threads; Sched/System.antt has the calls over all CPUs. Sched/Invariant.antt says that a
-- ready thread stands in the queue of its priority, which also makes the walk of one queue in
-- sched_age_threads independent of the pushes into the next. Sched/Count.antt counts the threads with
-- an id; Sched/Wake.antt, Sched/Age.antt, Sched/Choice.antt and Sched/Handover.antt follow the parts
-- of sched_reschedule, and Sched/Contract.antt puts them together. Sched/Rank.antt and
-- Sched/Waiting.antt follow a thread that waits over one reschedule, and Sched/Events.antt over
-- a run of them while the threads on the CPU exit and go to sleep and others join. Sched/Threads.antt,
-- Sched/Handoff.antt and Sched/Spawn.antt are about the calls over all CPUs. A call holds its locks with interrupts off,
-- and is one step of the model. What kmalloc returns is an argument; a failed allocation of a thread
-- is not modelled, since the code does not test for it.
--
-- Pmm.antt (src/kernel/pmm.c): the bitmap of pages, pmm_alloc and pmm_free; Pmm/Init.antt has pmm_init.
-- The bitmap is a function from the index of a byte to the byte, so the bits behind the last page can be
-- read, as the code may read them. The search loops take fuel, one more than the pages they cover.
-- Pmm/Bits.antt reads the bitmap as a set of pages; Pmm/Alloc.antt, Pmm/Free.antt and
-- Pmm/Init/Pages.antt are about the calls.
--
-- Text.antt (src/kernel/lib.c): the string and memory functions, on buffers of characters; a read behind
-- the end of a buffer gives 0. Text/Laws.antt is about them. Locks, interrupt flags, port and register
-- access of lib.c are machine instructions and not modelled.
--
-- Alpc.antt (src/kernel/alpc.c): message ports. A port is reached by the address that kmalloc gave for
-- it, which is an argument; alpc_send hands the CPU over with sched_handoff of Sched/System.antt.
-- Alpc/Refine.antt has the queue of messages that a port implements, Alpc/Send.antt is about alpc_send,
-- Alpc/Ports.antt about names. Alpc/Sections.antt has the shared sections, over pmm_alloc; the calls of
-- vmm_map are a list of addresses. Alpc/Sections/Shared.antt is about them, Alpc/Sections/Table.antt and
-- Alpc/Sections/Limit.antt about how many there are.
--
-- Console.antt (src/kernel/console.c): pixels, characters and numbers on the frame buffer, which is a
-- function from the index of a pixel to its colour. Console/Font.antt has the font of lib.c; what stands
-- behind it in memory is an argument. Console/Frame.antt, Console/Cursor.antt and Console/Digits.antt
-- are about drawing, the cursor and the digits of a number.
--
-- Vmm.antt (src/kernel/vmm.c): page tables of four levels, as words of memory by address, and pmm_alloc
-- for new ones; Vmm/Init.antt has vmm_init, whose loops are lists of the calls of vmm_map in order.
-- Vmm/Tables.antt says when memory holds a tree of tables and walks down it; Vmm/Link.antt, Vmm/Next.antt
-- and Vmm/Lookup.antt follow a new table and a new entry; Vmm/Contract.antt puts vmm_map together, and
-- Vmm/Init/Identity.antt vmm_init, with the pages that its loops cover in Vmm/Init/Cover.antt. Pmm/One.antt has the allocation of one page. The tables are reached
-- at their physical addresses, as the identity mapping allows; CR3 and the TLB are not modelled.
--
-- Acpi.antt (src/kernel/acpi.c): the firmware's tables in memory by bytes, the search for the MADT and the
-- walk over its entries. The walk takes fuel, since the code may not end; a processor behind the 64 of
-- the array is an outcome of its own. Acpi/Walk.antt is about acpi_init.
--
-- Shell.antt (src/kernel/shell.c): shell_run, as the list of its calls for the characters that the
-- keyboard gives. Shell/Line.antt says what the line buffer holds; Shell/Refine.antt has the shell as its
-- user sees it, over the queue of Keyboard/Refine.antt. The commands are names. Of what they do, which is
-- tests, Shell/HeapTest.antt has heaptest over Heap.antt; its words in memory are kept apart from the heap's
-- headers. Shell/HeapTest/Stages.antt and Shell/HeapTest/Stress.antt follow its stages, over a heap behind
-- blocks that stay (Heap/Tail.antt); 70 rounds more than there are blocks are enough for each loop, since the
-- test has at most 64 blocks at once. Shell/PmmTest.antt has pmmtest over Pmm.antt, and
-- Shell/PmmTest/Pages.antt follows its pages.
--
-- Gdt.antt (src/kernel/gdt.c): the descriptors and the task state segment. Gdt/Table.antt reads them.
--
-- Idt.antt (src/kernel/idt.c): the gates of the interrupt table. Idt/Handler.antt has interrupt_handler, over
-- Sched/Reschedule.antt, Keyboard.antt and Vmm.antt, with apic_timer_handler of src/kernel/apic.c; what it
-- prints, writes to ports and frees is a list. Idt/Gates.antt and Idt/Events.antt are about them.
-- Vmm/Entry.antt has the entry that a new mapping leaves.
--
-- Boot.antt (src/boot/main.c): the boot loader over what the firmware's services answer, which is an
-- argument. Boot/Best.antt is about the mode and the root pointer, Boot/Start.antt about efi_main.
--
-- Smp.antt (src/kernel/smp.c): the start of the other processors, as the list of calls of smp_init over
-- the table of Acpi.antt. Smp/Wake.antt is about the interrupts that it sends.
--
-- Cpu.antt (src/kernel/cpu.c): the table of CPUs; Cpu/Table.antt is about it. Syscall.antt
-- (src/kernel/syscall.c): the system calls over the machine of Idt/Handler.antt; what stands at the address of a
-- string, or which exception its reading raises, is an argument. Syscall/Exit.antt is about them.
--
-- Apic.antt (src/kernel/apic.c): the local APIC; its waits take fuel, since they end when a device says so.
-- Apic/Calibrate.antt is about apic_init, and reads what the PIT and the timer were loaded with.
--
-- Lock.antt (src/kernel/lib.c, src/kernel/console.c): the lock of the console, as steps of cores that follow each
-- other in any order, with interrupts in between; Lock/History.antt has what the console is to show and
-- the invariant, Lock/Moves.antt what a step keeps, Lock/Serial.antt that prints come out one after the
-- other, Lock/Progress.antt that a core that waits can go on. This is what lets the other modules take a
-- call that holds a lock with interrupts off as one step.
--
-- Kernel.antt (src/kernel/kernel.c): the end of kmain, which starts the scheduler and the shell;
-- Kernel/Shell.antt follows it to the shell's first turn.
--
-- Not modelled: assembly; device registers beside those named above; the commands of the shell, which are
-- tests, but heaptest and pmmtest; and the calls of kmain before the scheduler starts, as one run.
pub mod Prelude
pub mod Keyboard
pub mod Console
pub mod Heap
pub mod Sched
pub mod Shell
pub mod Acpi
pub mod Alpc
pub mod Pmm
pub mod Text
pub mod Vmm
pub mod Gdt
pub mod Idt
pub mod Boot
pub mod Smp
pub mod Cpu
pub mod Syscall
pub mod Lock
pub mod Apic
pub mod Kernel
