-- ===== src/Process.antt =====
-- The system calls of sys/syscall_handler.c that stop, wake and end tasks, over the scheduler.
-- A call that ends in `sys_yield` leaves another task running: what it returns is read when the
-- caller runs again.
pub mod Wake
pub mod Sleep
pub mod Execve
pub mod Replaced
pub mod Listing
pub mod Listed
use os.Common.{
  ℕ, zero, suc, ◌+◌, ◌-◌, ◌*◌, ◌/◌, ◌%◌, ◌^◌, ◌≡◌, Bool, true, false, not, ◌&&◌, ◌||◌, Option, none,
  some, List, [], ◌∷◌, ◌++◌, ltb, leb, ◌==◌, if◌then◌else◌, length,
}
use os.Common.Int.{ℤ, pos, negsuc, minus_one}
use os.Common.Links.{Links, update}
use os.Sched.{Sched, run_next_task, add_sleeping_task, add_waiting_task, schedule, sign_extend}

-- A call that has returned a value, or a switch to another task.
pub data Outcome : Type 0 where
  returned : ℤ → Sched → Outcome
  switched : Sched → Outcome

pub sys_yield : ℕ → Sched → Option Outcome
sys_yield fuel s = elim (run_next_task fuel s) [ none ↦ none | some s' ↦ some (switched s') ]

pub sys_sleep : ℕ → ℕ → Sched → Option Outcome
sys_sleep fuel msec s =
    let s1 : Sched = record s {
      sleep_time = update s.sleep_time s.current ((s.ms + msec) % 2 ^ 64);
    } in
    elim (add_sleeping_task fuel s.current s1) [
      | none ↦ none
      | some s2 ↦ some (returned (pos 0) s2)
    ]

-- -1 as an `int`: any child.
abbrev pub any_child : ℕ
any_child = 2 ^ 32 - 1

-- The state in which `sys_wait4` gives up the processor.
abbrev pub wait_for : ℕ → Sched → Sched
wait_for pid s = record s {
  waiting = update s.waiting s.current true;
  wait_pid = update s.wait_pid s.current pid;
}

-- What is written through the status pointer, if it is not null, and the outcome. After a switch the
-- call returns `rax` of the task.
pub sys_wait4 : ℕ → ℕ → ℕ → Sched → Option (Option ℤ × Outcome)
sys_wait4 fuel pid status s =
    let wrote : ℤ → Option ℤ = λ (v : ℤ). if status == 0 then none else some v in
    if s.num_children s.current == 0
    then some (wrote minus_one, returned minus_one s)
    else elim (add_waiting_task fuel s.current s) [
      | none ↦ none
      | some s1 ↦ elim (sys_yield fuel (wait_for pid s1)) [
        | none ↦ none
        | some o ↦ some (wrote (pos 0), o)
      ]
    ]

abbrev pub waits_for : Sched → ℕ → ℕ → Bool
waits_for s p child = s.waiting p && (s.wait_pid p == s.pid child || s.wait_pid p == any_child)

-- The conditional of `sys_exit` on the parent.
pub notify_parent : Sched → Sched
notify_parent s =
    let p : ℕ = s.parent s.current in
    let woken : Sched =
      if waits_for s p s.current
      then record s {
        waiting = update s.waiting p false;
        rax = update s.rax p (sign_extend (s.pid s.current));
      }
      else s in
    if p == 0 then s else record woken {
      num_children = update woken.num_children p ((woken.num_children p + 2 ^ 64 - 1) % 2 ^ 64);
    }

pub sys_exit : ℕ → Sched → Option Outcome
sys_exit fuel s =
    sys_yield fuel (notify_parent (record s { runnable = update s.runnable s.current false }))
