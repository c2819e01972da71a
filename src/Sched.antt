-- ===== src/Sched.antt =====
-- src/kernel/sched.c: threads, the ready queues of each CPU, and the switch between threads.
pub mod Thread
pub mod Reschedule
pub mod Count
pub mod Invariant
pub mod Wake
pub mod Age
pub mod Choice
pub mod Handover
pub mod Contract
pub mod System
pub mod Threads
pub mod Handoff
pub mod Rank
pub mod Waiting
pub mod Events
pub mod Spawn
mod Tests
