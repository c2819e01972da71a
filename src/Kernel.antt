-- ===== src/Kernel.antt =====
-- src/kernel/kernel.c: the end of kmain, which starts the first threads. What kmalloc returns for
-- them is an argument.
mod Shell
mod Tests
use barium.Prelude.{ℕ, some, List, [], ◌∷◌}
use barium.Sched.System.{System, Spawned, sched_init, sched_spawn}

abbrev pub shell_name : List ℕ
shell_name = 115 ∷ 104 ∷ 101 ∷ 108 ∷ 108 ∷ []

-- `sched_init` on the first CPU, and `sched_spawn(shell_run, 10, "shell")`. What runs in kmain goes on
-- as the idle thread.
unfoldable pub start_shell : (idle_thread idle_stack shell_run thread stack : ℕ) → System → Spawned
start_shell idle_thread idle_stack shell_run thread stack s =
    sched_spawn shell_run 10 (some shell_name) thread stack (sched_init 0 idle_thread idle_stack s)
