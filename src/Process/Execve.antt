-- ===== src/Process/Execve.antt =====
-- `sys_execve` of sys/syscall_handler.c and the task's part of `replace_task` in sys/task_pool.c: what
-- becomes of the task that calls. The new task, 0 if `create_elf_process` fails, is an argument; its
-- memory and the files of the old one are left out.
use os.Common.{ℕ, Option, some, ltb, ◌==◌, if◌then◌else◌}
use os.Common.Int.{minus_one}
use os.Common.Links.{update}
use os.Sched.{Sched}
use os.Process.{Outcome, returned, sys_yield}

-- The end of `replace_task`: 512 bytes of the kernel stack, 64 words, are cleared.
unfoldable pub replace_links : ℕ → Sched → Sched
replace_links task s = record s {
  stack = update s.stack task (λ i. if ltb i 64 then 0 else s.stack task i);
  parent = update s.parent task 0;
  prev = update s.prev task 0;
  next = update s.next task 0;
}

-- What `sys_execve` does with the new task before it replaces the old one.
unfoldable pub take_place : ℕ → Sched → Sched
take_place new_task s =
    let prev = s.prev s.current in
    let s1 : Sched = record s {
      parent = update s.parent new_task (s.parent s.current);
      pid = update s.pid new_task (s.pid s.current);
    } in
    let s2 : Sched = if prev == 0 then s1 else record s1 { next = update s1.next prev new_task } in
    record s2 { next = update s2.next new_task (s.next s.current) }

unfoldable pub sys_execve : ℕ → ℕ → Sched → Option Outcome
sys_execve fuel new_task s =
    if new_task == 0
    then some (returned minus_one s)
    else sys_yield fuel (replace_links s.current (take_place new_task s))
