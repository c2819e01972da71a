-- ===== src/Kernel/Tests.antt =====
-- The start of the scheduler and the shell at concrete values.
use barium.Prelude.{[], ◌∷◌, get_or}
use barium.Sched.Reschedule.{sched_reschedule}
use barium.Sched.System.{System, blank_cpu}
use barium.Sched.Spawn.{StartsAt}
use barium.Kernel.{start_shell}
use barium.Kernel.Shell.{Runs, start_shell-Runs}

-- What `kmain` finds: one CPU, and no thread yet.
abbrev at_start : System
at_start = record { cpus = blank_cpu ∷ []; next_tid = 1; next_cpu_index = 0 }

start_shell-Runs_example :
    let r = start_shell 0x500000 0x510000 0x201000 0x520000 0x530000 at_start in
    Runs r.tid 0x531f50 (sched_reschedule 100 (get_or r.system.cpus 0 blank_cpu) 0x4000)
    × StartsAt 0x201000 0x08 0x532000 0x10 r.frame
start_shell-Runs_example =
    start_shell-Runs 0x500000 0x510000 0x201000 0x520000 0x530000 100 0x4000 1 blank_cpu []
