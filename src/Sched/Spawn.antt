-- ===== src/Sched/Spawn.antt =====
-- New tasks: `create_new_task`, `create_idle_task` and the task's part of `fork_process` in
-- sys/schedule.c, and `sys_fork` of sys/syscall_handler.c. The address of the task, from its pool,
-- and that of its kernel stack, from `kmalloc`, are arguments; so is the address of `_fork_ret`.
use os.Common.{
  ℕ, ◌+◌, ◌-◌, ◌*◌, ◌%◌, ◌^◌, Bool, true, false, Option, none, some, ◌==◌, if◌then◌else◌,
}
use os.Common.Links.{update}
use os.Sched.{Sched, schedule, sign_extend, get_next_pid}

-- `create_new_task`, for the fields of `Sched`.
unfoldable pub create_new_task : Bool → ℕ → ℕ → Sched → Sched
create_new_task userp task page s =
    let (pid, s1) = get_next_pid s in
    record s1 {
      start_ms = update s.start_ms task s.ms;
      kstack = update s.kstack task page;
      runnable = update s.runnable task true;
      sleep_time = update s.sleep_time task 0;
      stack =
          update s.stack task (
            update (update (update (s.stack task) 511 0x10) 508 8) 510 ((page + 8 * 511) % 2 ^ 64));
      pid = update s.pid task pid;
      userp = update s.userp task userp;
    }

-- `create_idle_task`, with the address of the function `idle_task`.
unfoldable pub create_idle_task : ℕ → ℕ → ℕ → ℕ → Sched → Option Sched
create_idle_task fuel task page function s =
    let made : Sched = create_new_task false task page s in
    let scheduled : Option Sched =
      schedule fuel task function
        (record made { idle = task; runnable = update made.runnable task false }) in
    if s.idle == 0
    then elim scheduled [
      | none ↦ none
      | some s1 ↦ some (record s1 { rax = update s1.rax task (2 ^ 64 - 1) })
    ]
    else some s

-- `memmove(parent, child, sizeof(task_struct))`: every field, the links too.
unfoldable pub copy_task : ℕ → ℕ → Sched → Sched
copy_task parent child s = record s {
  next = update s.next child (s.next parent);
  prev = update s.prev child (s.prev parent);
  parent = update s.parent child (s.parent parent);
  runnable = update s.runnable child (s.runnable parent);
  waiting = update s.waiting child (s.waiting parent);
  userp = update s.userp child (s.userp parent);
  first_run = update s.first_run child (s.first_run parent);
  sleep_time = update s.sleep_time child (s.sleep_time parent);
  start_ms = update s.start_ms child (s.start_ms parent);
  pid = update s.pid child (s.pid parent);
  wait_pid = update s.wait_pid child (s.wait_pid parent);
  rax = update s.rax child (s.rax parent);
  num_children = update s.num_children child (s.num_children parent);
  entry = update s.entry child (s.entry parent);
  rsp = update s.rsp child (s.rsp parent);
  kstack = update s.kstack child (s.kstack parent);
}

-- The statements of `fork_process` on the task.
unfoldable pub fork_task : ℕ → ℕ → ℕ → ℕ → Sched → Sched
fork_task parent child page fork_ret s =
    let copied : Sched = copy_task parent child s in
    let (pid, s1) = get_next_pid copied in
    record s1 {
      kstack = update copied.kstack child page;
      runnable = update copied.runnable child true;
      num_children = update copied.num_children parent ((copied.num_children parent + 1) % 2 ^ 64);
      stack = update s.stack child (update (s.stack parent) 498 fork_ret);
      rsp = update copied.rsp child ((page + 8 * 498) % 2 ^ 64);
      parent = update copied.parent child parent;
      pid = update copied.pid child pid;
    }

-- `sys_fork`, less the memory: the value that it returns, in 64 bits, and the state.
unfoldable pub sys_fork : ℕ → ℕ → ℕ → ℕ → Sched → Option (ℕ × Sched)
sys_fork fuel child page fork_ret s =
    let forked : Sched = fork_task s.current child page fork_ret s in
    elim (schedule fuel child (forked.stack s.current 505) forked) [
      | none ↦ none
      | some s1 ↦ some (
        sign_extend (s1.pid child),
        record s1 { rax = update s1.rax child 0; first_run = update s1.first_run child false },
      )
    ]
